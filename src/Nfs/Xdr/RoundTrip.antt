-- ===== src/Nfs/Xdr/RoundTrip.antt =====
-- What is written is read back, and the payload kept apart is the one written in place.
use Prim.Native.Nat.{bit_or}
use rail.Prelude.{
  ℕ, ◌+◌, ◌*◌, ◌/◌, ◌%◌, ◌^◌, ◌≤◌, ◌<◌, ◌≡◌, refl, sym, ap, ◌∙◌, true, false, ltb, [], ◌∷◌, ◌++◌,
  length, drop, replicate, min, append_assoc, append-nil, length-append, length-replicate,
  take-append, drop-append, arith,
}
use rail.Prelude.Bits.{bit_or-shifted}
use rail.Prelude.Pieces.{drop-drop}
use rail.Proto.Bytes.{Bytes}
use rail.Nfs.Xdr.{
  padding, XdrPayload, XdrWriter, be_bytes, put_u32, put_u64, put_fixed, put_opaque,
  put_opaque_tail, payload, XdrReader, has_room, of_be_bytes, get_u32, get_u64, get_fixed,
  get_opaque,
}

-- What a payload puts on the wire.
abbrev pub wire : XdrPayload → Bytes
wire p = p.body ++ (p.tail ++ replicate p.pad 0)

abbrev reading : Bytes → XdrReader
reading bytes = record { unread = bytes; ok = true }

of_be_bytes-step :
    (v b : ℕ) (rest : Bytes)
    → b < 256
    → v < 2 ^ 24
    → of_be_bytes v (b ∷ rest) ≡ of_be_bytes (b + v * 2 ^ 8) rest
unfolding of_be_bytes
of_be_bytes-step v b rest hb hv =
    let fits : v % 2 ^ 24 ≡ v = omega arith in
    rw fits (ap (λ n. of_be_bytes n rest) (bit_or-shifted 8 b v (omega arith)))

pub of_be_bytes-be_bytes : (v : ℕ) → v < 2 ^ 32 → of_be_bytes 0 (be_bytes v) ≡ v
unfolding be_bytes
of_be_bytes-be_bytes v h =
    of_be_bytes-step 0 (v / 2 ^ 24 % 256) _ (omega arith) (omega arith)
    ∙ of_be_bytes-step (v / 2 ^ 24 % 256 + 0 * 2 ^ 8) (v / 2 ^ 16 % 256) _ (omega arith)
        (omega arith)
    ∙ of_be_bytes-step (v / 2 ^ 16 % 256 + (v / 2 ^ 24 % 256 + 0 * 2 ^ 8) * 2 ^ 8) (v / 2 ^ 8 % 256)
        _ (omega arith) (omega arith)
    ∙ of_be_bytes-step
        (v / 2 ^ 8 % 256 + (v / 2 ^ 16 % 256 + (v / 2 ^ 24 % 256 + 0 * 2 ^ 8) * 2 ^ 8) * 2 ^ 8)
        (v % 256) [] (omega arith) (omega arith)
    ∙ done
  where
    done :
        of_be_bytes
          (v % 256
            + (v / 2 ^ 8 % 256
                + (v / 2 ^ 16 % 256 + (v / 2 ^ 24 % 256 + 0 * 2 ^ 8) * 2 ^ 8) * 2 ^ 8)
              * 2 ^ 8)
          []
        ≡ v
    done = unfold of_be_bytes in omega arith

pub get_u32-be_bytes :
    (v : ℕ) (rest : Bytes) → v < 2 ^ 32 → get_u32 (reading (be_bytes v ++ rest)) ≡ (v, reading rest)
unfolding get_u32 has_room be_bytes
get_u32-be_bytes v rest h =
    let room : ltb (length (be_bytes v ++ rest)) 4 ≡ false = ground arith in
    rw room (ap (λ n. (n, reading rest)) (of_be_bytes-be_bytes v h))

get_fixed-padded :
    (v rest : Bytes)
    → get_fixed (reading (v ++ (replicate (padding (length v)) 0 ++ rest))) (length v)
      ≡ (v, reading rest)
unfolding get_fixed has_room
get_fixed-padded v rest =
    let pads : Bytes = replicate (padding (length v)) 0 in
    let long : length (v ++ (pads ++ rest)) ≡ length v + (padding (length v) + length rest) =
      length-append v (pads ++ rest)
      ∙ omega (arith, length-append pads rest, length-replicate {A = ℕ} (padding (length v)) 0) in
    let room : ltb (length (v ++ (pads ++ rest))) (length v + padding (length v)) ≡ false =
      ground (arith, long) in
    let behind : drop (length v + padding (length v)) (v ++ (pads ++ rest)) ≡ rest =
      sym (drop-drop (length v) (padding (length v)) (v ++ (pads ++ rest)))
      ∙ ap (drop (padding (length v))) (drop-append v (pads ++ rest))
      ∙ ap (λ n. drop n (pads ++ rest)) (sym (length-replicate {A = ℕ} (padding (length v)) 0))
      ∙ drop-append pads rest in
    rw (room, take-append v (pads ++ rest), behind) refl

-- An opaque that the reader's limit admits is read back whole, and what follows is left, aligned to
-- four bytes.
pub get_opaque-put_opaque :
    (w : XdrWriter) (v rest : Bytes) (limit : ℕ)
    → w.out ≡ []
    → length v < 2 ^ 32
    → length v ≤ limit
    → get_opaque (record { unread = (put_opaque w v).out ++ rest; ok = true }) limit
      ≡ (v, record { unread = rest; ok = true })
unfolding put_opaque put_fixed put_u32 get_opaque
get_opaque-put_opaque w v rest limit fresh short admitted =
    let whole : length v % 2 ^ 32 ≡ length v = omega arith in
    let inside : ltb limit (length v) ≡ false = ground arith in
    let pads : Bytes = replicate (padding (length v)) 0 in
    rw
      (
        fresh,
        whole,
        append_assoc,
        append_assoc,
        get_u32-be_bytes (length v) (v ++ (pads ++ rest)) short,
        inside,
      )
      (get_fixed-padded v rest)

-- A payload kept apart and one written in place are the same bytes on the wire.
pub put_opaque_tail-put_opaque :
    (w : XdrWriter) (v : Bytes)
    → w.tail ≡ []
    → w.tail_pad ≡ 0
    → wire (payload (put_opaque_tail w v)) ≡ wire (payload (put_opaque w v))
unfolding payload put_opaque_tail put_opaque put_fixed put_u32
put_opaque_tail-put_opaque w v fresh aligned =
    let small : min (padding (length v)) 3 ≡ padding (length v) = unfold padding in omega arith in
    let pads : Bytes = replicate (padding (length v)) 0 in
    let head = w.out ++ be_bytes (length v % 2 ^ 32) in
    rw (fresh, aligned, small) (sym (append-nil ((head ++ v) ++ pads) ∙ append_assoc head v pads))

-- A uint64_t is read back, and what follows is left.
pub get_u64-put_u64 :
    (w : XdrWriter) (v : ℕ) (rest : Bytes)
    → w.out ≡ []
    → v < 2 ^ 64
    → get_u64 (record { unread = (put_u64 w v).out ++ rest; ok = true })
      ≡ (v, record { unread = rest; ok = true })
unfolding put_u64 put_u32 get_u64
get_u64-put_u64 w v rest fresh fits =
    let high : v / 2 ^ 32 % 2 ^ 32 ≡ v / 2 ^ 32 = omega arith in
    let join : bit_or (v % 2 ^ 32) (v / 2 ^ 32 * 2 ^ 32) ≡ v =
      bit_or-shifted 32 (v % 2 ^ 32) (v / 2 ^ 32) (omega arith) ∙ omega arith in
    let first = get_u32-be_bytes (v / 2 ^ 32) (be_bytes (v % 2 ^ 32) ++ rest) (omega arith) in
    let second = get_u32-be_bytes (v % 2 ^ 32) rest (omega arith) in
    rw (fresh, append_assoc, first, second, high, join) refl

-- An opaque longer than the reader's limit is refused: nothing is returned, and the reader has
-- failed.
pub get_opaque-over :
    (w : XdrWriter) (v rest : Bytes) (limit : ℕ)
    → w.out ≡ []
    → length v < 2 ^ 32
    → limit < length v
    → let read = get_opaque (record { unread = (put_opaque w v).out ++ rest; ok = true }) limit in
      (read.0 ≡ []) × (read.1.ok ≡ false)
unfolding put_opaque put_fixed put_u32 get_opaque
get_opaque-over w v rest limit fresh short over =
    let whole : length v % 2 ^ 32 ≡ length v = omega arith in
    let outside : ltb limit (length v) ≡ true = ground arith in
    let pads : Bytes = replicate (padding (length v)) 0 in
    rw
      (
        fresh,
        whole,
        append_assoc,
        append_assoc,
        get_u32-be_bytes (length v) (v ++ (pads ++ rest)) short,
        outside,
      )
      (refl, refl)
