-- ===== src/Proto/Inverse.antt =====
-- When a reader reads back what a writer wrote: the rules for the methods of `Writer` and `Reader`
-- and for their sequences.
use rail.Prelude.{
  ℕ, ◌^◌, ◌<◌, ◌%◌, ◌≡◌, refl, ap, ◌∙◌, Bool, true, false, ◌++◌, length, take-append, drop-append,
  append_assoc, length-append, arith,
}
use rail.Proto.Bytes.{Bytes, le_bytes, length-le_bytes, of_le_bytes-le_bytes}
use rail.Proto.Writer
use rail.Proto.Writer.{Writer, ◌>>◌}
use rail.Proto.Reader
use rail.Proto.Reader.{Reader, Read, pure, ◌>>=◌}

-- A reader that has met no error, over some bytes.
abbrev pub at : Bytes → Reader
at bytes = record { unread = bytes; ok = true }

-- `w` appends some bytes, and `rd` takes just these and returns `a`.
pub record Inverse {A : Type 0} (w : Writer) (rd : Read A) (a : A) : Type 0 where
  pub bytes : Bytes
  pub writes : (out : Bytes) → w out ≡ out ++ bytes
  pub reads : (rest : Bytes) → rd (at (bytes ++ rest)) ≡ (a, at rest)

take_or_lem :
    {A : Type 0} (default : A) (make : Bytes → A) (bytes rest : Bytes) (n : ℕ)
    → length bytes ≡ n
    → Reader.take_or default make n (at (bytes ++ rest)) ≡ (make bytes, at rest)
unfolding Reader.take_or
take_or_lem default make bytes rest n e =
    rw (← e)
      (ground (arith, length-append bytes rest, take-append bytes rest, drop-append bytes rest))

-- A whole number, of as many bytes as its type has.
integer : (n v : ℕ) → v < 256 ^ n → Inverse (Writer.raw (le_bytes n v)) (Reader.read n) v
unfolding Writer.raw Reader.read
integer n v h = record {
  bytes = le_bytes n v;
  writes = λ out. refl;
  reads = λ rest.
      take_or_lem _ _ (le_bytes n v) rest n (length-le_bytes n v)
      ∙ ap (λ t. (t, at rest)) (of_le_bytes-le_bytes n v h);
}

pub u8 : {v : ℕ} → v < 2 ^ 8 → Inverse (Writer.u8 v) Reader.u8 v
unfolding Writer.u8 Reader.u8
u8 {v} h = integer 1 v (omega arith)

pub u16 : {v : ℕ} → v < 2 ^ 16 → Inverse (Writer.u16 v) Reader.u16 v
unfolding Writer.u16 Reader.u16
u16 {v} h = integer 2 v (omega arith)

pub u32 : {v : ℕ} → v < 2 ^ 32 → Inverse (Writer.u32 v) Reader.u32 v
unfolding Writer.u32 Reader.u32
u32 {v} h = integer 4 v (omega arith)

pub u64 : {v : ℕ} → v < 2 ^ 64 → Inverse (Writer.u64 v) Reader.u64 v
unfolding Writer.u64 Reader.u64
u64 {v} h = integer 8 v (omega arith)

pub i64 : {v : ℕ} → v < 2 ^ 64 → Inverse (Writer.i64 v) Reader.i64 v
unfolding Writer.i64 Reader.i64
i64 {v} h = integer 8 v (omega arith)

pub hash : {h : Bytes} → length h ≡ 16 → Inverse (Writer.hash h) Reader.hash h
unfolding Writer.hash Writer.raw Reader.hash
hash {h} e = record { bytes = h; writes = λ out. refl; reads = λ rest. take_or_lem _ _ h rest 16 e }

module _ {A B : Type 0} {w w' : Writer} {rd : Read A} {a : A} {b : B} (f : A → Read B) where
  pub bind : Inverse w rd a → Inverse w' (f a) b → Inverse (w >> w') (rd >>= f) b
  unfolding ◌>>◌ ◌>>=◌
  bind p q = record {
    bytes = p.bytes ++ q.bytes;
    writes =
        λ out. ap w' (p.writes out) ∙ q.writes (out ++ p.bytes) ∙ append_assoc out p.bytes q.bytes;
    reads =
        λ rest. rw (append_assoc p.bytes q.bytes rest, p.reads (q.bytes ++ rest)) (q.reads rest);
  }

module _ {A B : Type 0} {w : Writer} {rd : Read A} {a : A} (g : A → B) where
  -- The last field, after which the value is put together.
  pub last : Inverse w rd a → Inverse w (rd >>= (λ x. pure (g x))) (g a)
  unfolding ◌>>=◌ pure
  last p = record { bytes = p.bytes; writes = p.writes; reads = λ rest. rw (p.reads rest) }

pub flag : {b : Bool} → Inverse (Writer.flag b) Reader.flag b
unfolding Writer.flag Reader.flag
flag {b = true} = last _ (u8 {v = 1} (omega arith))
flag {b = false} = last _ (u8 {v = 0} (omega arith))

pub str : {s : Bytes} → length s < 2 ^ 32 → Inverse (Writer.str s) Reader.str s
unfolding Writer.str Reader.str Writer.raw
str {s} h = bind _ (rw small (u32 h)) (record {
  bytes = s;
  writes = λ out. refl;
  reads = λ rest. take_or_lem _ _ s rest (length s) refl;
})
  where
    small : length s % 2 ^ 32 ≡ length s
    small = omega arith
