-- ===== src/Proto/Bytes.antt =====
-- Fixed-width integers as the bytes that `memcpy` copies: an unsigned integer of n bytes, lowest
-- byte first, as the hosts the program is built for hold it. An int64_t is its 64-bit pattern.
use rail.Prelude.{
  ℕ, zero, suc, ◌+◌, ◌*◌, ◌/◌, ◌%◌, ◌^◌, ◌<◌, ◌≡◌, refl, ap, List, [], ◌∷◌, length, All, arith,
}
use native.Mathlib.Nat.{pow-suc}

abbrev pub Bytes : Type 0
Bytes = List ℕ

abbrev pub IsByte : ℕ → Type 0
IsByte b = b < 256

unfoldable pub le_bytes : ℕ → ℕ → Bytes
le_bytes zero v = []
le_bytes (suc n) v = (v % 256) ∷ le_bytes n (v / 256)

unfoldable pub of_le_bytes : Bytes → ℕ
of_le_bytes [] = 0
of_le_bytes (b ∷ bs) = b + 256 * of_le_bytes bs

pub length-le_bytes : (n v : ℕ) → length (le_bytes n v) ≡ n
unfolding le_bytes
length-le_bytes zero v = refl
length-le_bytes (suc n) v = ap suc (length-le_bytes n (v / 256))

pub le_bytes-IsByte : (n v : ℕ) → All IsByte (le_bytes n v)
unfolding le_bytes
le_bytes-IsByte zero v = tt
le_bytes-IsByte (suc n) v = (omega arith, le_bytes-IsByte n (v / 256))

pub of_le_bytes-le_bytes : (n v : ℕ) → v < 256 ^ n → of_le_bytes (le_bytes n v) ≡ v
unfolding of_le_bytes le_bytes
of_le_bytes-le_bytes zero v h = omega arith
of_le_bytes-le_bytes (suc n) v h =
    omega (arith, of_le_bytes-le_bytes n (v / 256) (omega (arith, pow-suc 256 n)))
