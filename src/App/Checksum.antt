-- ===== src/App/Checksum.antt =====
-- The rolling checksum of src/app/checksum.cc and include/rail/app/checksum.h. A uint32_t is a
-- number below 2 ^ 32 and each expression is reduced once: sums and products wrap alike however
-- often.
pub mod Rolling
use Prim.Native.Nat.{bit_or}
use rail.Prelude.{ℕ, ◌+◌, ◌-◌, ◌*◌, ◌/◌, ◌%◌, ◌^◌, List, [], ◌∷◌, length, take, ltb, if◌then◌else◌}
use rail.Proto.Bytes.{Bytes}

abbrev pub u32 : ℕ → ℕ
u32 x = x % 2 ^ 32

-- static_cast<uint32_t>(static_cast<int8_t>(B))
unfoldable pub extend : ℕ → ℕ
extend b = if ltb b 128 then b else b + (2 ^ 32 - 256)

pub record Sums : Type 0 where
  pub s1 : ℕ
  pub s2 : ℕ

-- for (; I < Len; I++), over the bytes from I on.
unfoldable pub by_one : Sums → Bytes → Sums
by_one s [] = s
by_one s (b ∷ rest) =
    let s1 = u32 (s.s1 + extend b) in by_one (record { s1 = s1; s2 = u32 (s.s2 + s1) }) rest

-- One round of the first loop.
unfoldable pub four : Sums → ℕ → ℕ → ℕ → ℕ → Sums
four s a b c d = record {
  s1 = u32 (s.s1 + extend a + extend b + extend c + extend d);
  s2 = u32 (s.s2 + 4 * (s.s1 + extend a) + 3 * extend b + 2 * extend c + extend d);
}

-- for (; I < Len - 4; I += 4) while more than four bytes are left, and then the second loop.
unfoldable pub by_four : Sums → Bytes → Sums
by_four s (a ∷ b ∷ c ∷ d ∷ e ∷ rest) = by_four (four s a b c d) (e ∷ rest)
by_four s rest = by_one s rest

-- The bytes that the loops see: Len is static_cast<int32_t>(Block.size()), which is negative from
-- 2 ^ 31 on, and then no round runs.
unfoldable pub counted : Bytes → Bytes
counted block = let len = length block % 2 ^ 32 in if ltb len (2 ^ 31) then take len block else []

unfoldable pub weak_checksum : Bytes → ℕ
weak_checksum block =
    let s = by_four (record { s1 = 0; s2 = 0 }) (counted block) in
    u32 (s.s1 % 2 ^ 16 + s.s2 * 2 ^ 16)

unfoldable pub roll_weak : ℕ → ℕ → ℕ → ℕ → ℕ
roll_weak sum out entering block_len =
    let o = extend out in
    let s1 = u32 (sum % 2 ^ 16 + 2 ^ 32 - o + extend entering) % 2 ^ 16 in
    let s2 = u32 (sum / 2 ^ 16 + 2 ^ 32 - u32 (block_len * o) + s1) % 2 ^ 16 in
    bit_or s1 (s2 * 2 ^ 16)

-- weakHash
unfoldable pub weak_hash : ℕ → ℕ
weak_hash weak = u32 (weak / 2 ^ 16 + weak % 2 ^ 16) % 2 ^ 16
