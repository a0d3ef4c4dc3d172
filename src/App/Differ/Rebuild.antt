-- ===== src/App/Differ/Rebuild.antt =====
-- What a receiver makes of the instructions: applyLiteral and applyCopy of src/session-receive.cc
-- on a file written from its front on. The bytes of a literal are the ones the sender reads of the
-- source.
use rail.Prelude.{
  ℕ, ◌*◌, ◌≡◌, refl, Option, none, some, List, [], ◌∷◌, ◌++◌, length, take, drop, ◌==◌,
  if◌then◌else◌, ltb, not,
}
use rail.Proto.Bytes.{Bytes}
use rail.Proto.Message.{Signature}
use rail.App.Signature.{block_length_at}
use rail.App.Differ.{Instruction, copy, literal}

abbrev pub and_then {ℓ κ} : {A : Type ℓ} {B : Type κ} → (A → Option B) → Option A → Option B
and_then f none = none
and_then f (some a) = f a

module _ (source basis : Bytes) (sig : Signature) where
  -- The block that a Copy names, where the basis has all of it.
  unfoldable pub basis_block : ℕ → Bytes
  basis_block index = take (block_length_at sig index) (drop (index * sig.block_length) basis)

module _ (page_bytes : ℕ) (source basis : Bytes) (sig : Signature) where
  -- applyLiteral where the pool has a page and the receives and writes before it end well, on bytes
  -- that came whole: longer ones than a page of the pool are refused. Where the offset is not the
  -- end of what is written, the write leaves a gap or overwrites, and here it is refused.
  unfoldable pub apply_literal : ℕ → ℕ → ℕ → Bytes → Option Bytes
  apply_literal src_offset dst_offset n out =
      if ltb page_bytes n
      then none
      else if dst_offset == length out
      then some (out ++ take n (drop src_offset source))
      else none

  -- applyCopy where there is a basis, in the same way: a block out of range and a short read of the
  -- basis are refused.
  unfoldable pub apply_copy : ℕ → ℕ → Bytes → Option Bytes
  apply_copy index dst_offset out =
      if block_length_at sig index == 0
      then none
      else if not (length (basis_block source basis sig index) == block_length_at sig index)
      then none
      else if dst_offset == length out
      then some (out ++ basis_block source basis sig index)
      else none

  unfoldable pub apply : Instruction → Bytes → Option Bytes
  apply (copy index src_offset dst_offset n bytes) out = apply_copy index dst_offset out
  apply (literal src_offset dst_offset n) out = apply_literal src_offset dst_offset n out

  unfoldable pub rebuild : List Instruction → Bytes → Option Bytes
  rebuild [] out = some out
  rebuild (i ∷ rest) out = and_then (rebuild rest) (apply i out)

  and_then-rebuild-nil : (o : Option Bytes) → and_then (rebuild []) o ≡ o
  unfolding rebuild
  and_then-rebuild-nil none = refl
  and_then-rebuild-nil (some a) = refl

  and_then-and_then :
      (f g h : Bytes → Option Bytes) (o : Option Bytes)
      → ((a : Bytes) → f a ≡ and_then g (h a))
      → and_then f o ≡ and_then g (and_then h o)
  and_then-and_then f g h none same = refl
  and_then-and_then f g h (some a) same = same a

  pub rebuild-append :
      (front : List Instruction) (i : Instruction) (out : Bytes)
      → rebuild (front ++ (i ∷ [])) out ≡ and_then (apply i) (rebuild front out)
  unfolding rebuild
  rebuild-append [] i out = and_then-rebuild-nil (apply i out)
  rebuild-append (j ∷ front) i out =
      and_then-and_then (rebuild (front ++ (i ∷ []))) (apply i) (rebuild front) (apply j out)
        (rebuild-append front i)
