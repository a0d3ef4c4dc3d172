-- ===== src/Nfs/Rpc/Sending.antt =====
-- sendRecord puts a record on the stream as one fragment.
use Prim.Native.Nat.{bit_or}
use rail.Prelude.{
  ℕ, zero, suc, ◌+◌, ◌-◌, ◌%◌, ◌^◌, ◌≤◌, ◌<◌, ◌≡◌, refl, sym, ap, ◌∙◌, false, List, [], ◌∷◌, ◌++◌,
  length, replicate, min, ◌==◌, if◌then◌else◌, append-nil, append_assoc, length-append,
  length-replicate, arith,
}
use rail.Prelude.Bits.{bit_or-shifted}
use rail.Result.{Result, ok, ◌>>=◌}
use rail.Proto.Bytes.{Bytes}
use rail.Io.Stream.{write_two}
use rail.Io.Stream.Writing.{Accepts, AcceptsOne, write_all-all, write_two-all}
use rail.Nfs.Xdr.{XdrPayload, padding, put_u32, put_fixed, be_bytes}
use rail.Nfs.Xdr.RoundTrip.{wire}
use rail.Nfs.Rpc.{last_fragment, no_bytes, payload_size, send_pad, send_record}
use rail.Nfs.Rpc.Records.{cut}

send_pad-all :
    (takes : Bytes → Result ℕ) (n : ℕ) (sent : Bytes)
    → AcceptsOne takes
    → send_pad takes (replicate n 0) sent ≡ ok (sent ++ replicate n 0)
send_pad-all takes zero sent law = ap ok (sym (append-nil sent))
send_pad-all takes (suc n) sent law =
    let some_pad : (length {A = ℕ} (0 ∷ replicate n 0) == 0) ≡ false = ground arith in
    rw some_pad (write_all-all takes (0 ∷ replicate n 0) sent law)

-- The marker and the header, as sendRecord writes them.
marked :
    (header : Bytes) (size : ℕ)
    → length header % 4 ≡ 0
    → size < last_fragment
    → (put_fixed (put_u32 no_bytes (bit_or (size % 2 ^ 32) last_fragment)) header).out
      ≡ be_bytes (size + last_fragment) ++ header
unfolding put_fixed put_u32 padding
marked header size aligned short =
    let word : size % 2 ^ 32 ≡ size = omega (arith, short) in
    let none_left : (4 - length header % 4) % 4 ≡ 0 = rw aligned refl in
    rw (word, none_left, bit_or-shifted 31 size 1 (omega (arith, short)), append-nil) refl

in_order :
    (sent front body pads : Bytes)
    → (sent ++ (front ++ body)) ++ pads ≡ sent ++ (front ++ (body ++ pads))
in_order sent front body pads =
    append_assoc sent (front ++ body) pads ∙ ap (λ t. sent ++ t) (append_assoc front body pads)

written :
    (takes_two : List Bytes → Result ℕ) (takes : Bytes → Result ℕ) (front : Bytes)
    (body tail : Bytes) (pad : ℕ) (sent : Bytes)
    → Accepts takes_two
    → AcceptsOne takes
    → (if length tail == 0
        then write_two takes_two front body sent >>= send_pad takes (replicate pad 0)
        else if length body == 0
        then write_two takes_two front tail sent >>= send_pad takes (replicate pad 0)
        else write_two takes_two front body sent >>= write_two takes_two tail (replicate pad 0))
      ≡ ok (sent ++ (front ++ (body ++ (tail ++ replicate pad 0))))
written takes_two takes front body [] pad sent two one =
    rw
      (
        write_two-all takes_two front body sent two,
        ◌>>=◌,
        send_pad-all takes pad (sent ++ (front ++ body)) one,
      )
      (ap ok (in_order sent front body (replicate pad 0)))
written takes_two takes front [] (t ∷ tail) pad sent two one =
    let some_tail : (length (t ∷ tail) == 0) ≡ false = ground arith in
    rw
      (
        some_tail,
        write_two-all takes_two front (t ∷ tail) sent two,
        ◌>>=◌,
        send_pad-all takes pad (sent ++ (front ++ (t ∷ tail))) one,
      )
      (ap ok (in_order sent front (t ∷ tail) (replicate pad 0)))
written takes_two takes front (b ∷ body) (t ∷ tail) pad sent two one =
    let some_tail : (length (t ∷ tail) == 0) ≡ false = ground arith in
    let some_body : (length (b ∷ body) == 0) ≡ false = ground arith in
    rw
      (
        some_tail,
        some_body,
        write_two-all takes_two front (b ∷ body) sent two,
        ◌>>=◌,
        write_two-all takes_two (t ∷ tail) (replicate pad 0) (sent ++ (front ++ (b ∷ body))) two,
      )
      (ap ok (in_order sent front (b ∷ body) ((t ∷ tail) ++ replicate pad 0)))

pub length-wire : (p : XdrPayload) → length (wire p) ≡ payload_size p
length-wire p = omega (
  arith,
  length-append p.body (p.tail ++ replicate p.pad 0),
  length-append p.tail (replicate p.pad 0),
  length-replicate {A = ℕ} p.pad 0,
)

-- sendRecord puts one fragment on the stream, which is the header and the payload.
pub send_record-cut :
    (takes_two : List Bytes → Result ℕ) (takes : Bytes → Result ℕ) (header : Bytes) (p : XdrPayload)
    (sent : Bytes)
    → Accepts takes_two
    → AcceptsOne takes
    → length header % 4 ≡ 0
    → p.pad ≤ 3
    → length header + payload_size p < last_fragment
    → send_record takes_two takes header p sent ≡ ok (sent ++ cut [] (header ++ wire p))
unfolding send_record
send_record-cut takes_two takes header p sent two one aligned padded short =
    let pads : min p.pad 3 ≡ p.pad = omega (arith, padded) in
    let size = length header + payload_size p in
    let long : length (header ++ wire p) ≡ size =
      omega (arith, length-append header (wire p), length-wire p) in
    rw (marked header size aligned short, pads)
      (written takes_two takes (be_bytes (size + last_fragment) ++ header) p.body p.tail p.pad sent
          two one
        ∙ rw long (
            ap (λ t. ok (sent ++ t))
              (append_assoc (be_bytes (size + last_fragment)) header (wire p))))
