-- ===== src/Nfs/Xdr.antt =====
-- XDR as src/nfs/xdr.cc writes and reads it. The reader's In and At are the bytes from At on.
pub mod RoundTrip
use Prim.Native.Nat.{bit_or}
use rail.Prelude.{
  ℕ, zero, suc, ◌+◌, ◌-◌, ◌*◌, ◌/◌, ◌%◌, ◌^◌, Bool, true, false, ◌&&◌, not, List, [], ◌∷◌, ◌++◌,
  length, take, drop, replicate, min, ltb, ◌==◌, if◌then◌else◌,
}
use rail.Proto.Bytes.{Bytes}

-- padding
unfoldable pub padding : ℕ → ℕ
padding length = (4 - length % 4) % 4

pub record XdrPayload : Type 0 where
  pub body : Bytes
  pub tail : Bytes
  pub pad : ℕ

-- XdrWriter: Out, Tail and TailPad
pub record XdrWriter : Type 0 where
  pub out : Bytes
  pub tail : Bytes
  pub tail_pad : ℕ

abbrev pub push : XdrWriter → Bytes → XdrWriter
push w bytes = record { out = w.out ++ bytes; tail = w.tail; tail_pad = w.tail_pad }

-- The bytes of a uint32_t, the highest first.
unfoldable pub be_bytes : ℕ → Bytes
be_bytes v = v / 2 ^ 24 % 256 ∷ v / 2 ^ 16 % 256 ∷ v / 2 ^ 8 % 256 ∷ v % 256 ∷ []

unfoldable pub put_u32 : XdrWriter → ℕ → XdrWriter
put_u32 w v = push w (be_bytes v)

unfoldable pub put_u64 : XdrWriter → ℕ → XdrWriter
put_u64 w v = put_u32 (put_u32 w (v / 2 ^ 32)) (v % 2 ^ 32)

unfoldable pub put_boolean : XdrWriter → Bool → XdrWriter
put_boolean w v = put_u32 w (if v then 1 else 0)

unfoldable pub put_fixed : XdrWriter → Bytes → XdrWriter
put_fixed w v = push (push w v) (replicate (padding (length v)) 0)

unfoldable pub put_opaque : XdrWriter → Bytes → XdrWriter
put_opaque w v = put_fixed (put_u32 w (length v % 2 ^ 32)) v

unfoldable pub put_opaque_tail : XdrWriter → Bytes → XdrWriter
put_opaque_tail w v =
    let counted = put_u32 w (length v % 2 ^ 32) in
    record { out = counted.out; tail = v; tail_pad = padding (length v) }

-- XdrWriter::size and XdrPayload::size
unfoldable pub writer_size : XdrWriter → ℕ
writer_size w = length w.out + length w.tail + w.tail_pad

unfoldable pub payload : XdrWriter → XdrPayload
payload w = record { body = w.out; tail = w.tail; pad = min w.tail_pad 3 }

-- resize(To): a longer vector is filled with zeros.
unfoldable pub truncate : XdrWriter → ℕ → XdrWriter
truncate w to = record {
  out = take to w.out ++ replicate (to - length w.out) 0;
  tail = [];
  tail_pad = 0;
}

pub record XdrReader : Type 0 where
  pub unread : Bytes
  pub ok : Bool

-- want, with whether there was room.
unfoldable pub has_room : XdrReader → ℕ → Bool
has_room r n = r.ok && not (ltb (length r.unread) n)

abbrev pub failed : XdrReader → XdrReader
failed r = record { unread = r.unread; ok = false }

-- for (size_t I = 0; I < 4; I++) V = (V << 8) | In[At + I]
unfoldable pub of_be_bytes : ℕ → Bytes → ℕ
of_be_bytes v [] = v
of_be_bytes v (b ∷ rest) = of_be_bytes (bit_or b (v % 2 ^ 24 * 2 ^ 8)) rest

unfoldable pub get_u32 : XdrReader → ℕ × XdrReader
get_u32 r =
    if has_room r 4
    then (of_be_bytes 0 (take 4 r.unread), record { unread = drop 4 r.unread; ok = r.ok })
    else (0, failed r)

unfoldable pub get_u64 : XdrReader → ℕ × XdrReader
get_u64 r =
    let (high, r1) = get_u32 r in
    let (low, r2) = get_u32 r1 in (bit_or low (high % 2 ^ 32 * 2 ^ 32), r2)

unfoldable pub get_boolean : XdrReader → Bool × XdrReader
get_boolean r = let (v, r1) = get_u32 r in (not (v == 0), r1)

unfoldable pub get_fixed : XdrReader → ℕ → Bytes × XdrReader
get_fixed r n =
    let total = n + padding n in
    if has_room r total
    then (take n r.unread, record { unread = drop total r.unread; ok = r.ok })
    else ([], failed r)

unfoldable pub get_opaque : XdrReader → ℕ → Bytes × XdrReader
get_opaque r limit =
    let (n, r1) = get_u32 r in
    if not r1.ok then ([], r1) else if ltb limit n then ([], failed r1) else get_fixed r1 n

-- left
unfoldable pub bytes_left : XdrReader → ℕ
bytes_left r = if r.ok then length r.unread else 0
