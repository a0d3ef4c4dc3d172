-- ===== src/Prelude/Bits.antt =====
-- `bit_or` of two numbers whose bits do not meet, from the digits that the native operation stands
-- for.
use Prim.Native.Nat.{bit_or, digits, bit_or-bitwise, max}
use rail.Prelude.{ℕ, zero, suc, ◌+◌, ◌*◌, ◌/◌, ◌%◌, ◌^◌, ◌≤◌, ◌<◌, ◌≡◌, refl, arith}
use native.Mathlib.Nat.{pow-suc}

-- What `bit_or` computes with `fuel` digits to go.
abbrev join_digits : ℕ → ℕ → ℕ → ℕ
join_digits fuel a b = digits (λ high. high) max fuel a b

-- Fuel that covers the number is as good as any other.
same_digits : (p q a b : ℕ) → a ≤ p → a ≤ q → join_digits p a b ≡ join_digits q a b
same_digits zero zero a b hp hq = refl
same_digits zero (suc q) zero b hp hq = refl
same_digits zero (suc q) (suc a) b hp hq = absurd (omega arith)
same_digits (suc p) zero zero b hp hq = refl
same_digits (suc p) zero (suc a) b hp hq = absurd (omega arith)
same_digits (suc p) (suc q) zero b hp hq = refl
same_digits (suc p) (suc q) (suc a) b hp hq =
    omega (arith, same_digits p q (suc a / 2) (b / 2) (omega arith) (omega arith))

pub zero-bit_or : (b : ℕ) → bit_or 0 b ≡ b
zero-bit_or b = bit_or-bitwise 0 b

bit_or_lowest : (a b : ℕ) → bit_or a b ≡ bit_or (a / 2) (b / 2) * 2 + max (a % 2) (b % 2)
bit_or_lowest zero b = omega (arith, zero-bit_or b, zero-bit_or (b / 2))
bit_or_lowest (suc a) b = omega (
  arith,
  bit_or-bitwise (suc a) b,
  bit_or-bitwise (suc a / 2) (b / 2),
  same_digits a (suc a / 2) (suc a / 2) (b / 2) (omega arith) (omega arith),
)

-- A number of k bits below another that is shifted by k.
pub bit_or-shifted : (k low high : ℕ) → low < 2 ^ k → bit_or low (high * 2 ^ k) ≡ low + high * 2 ^ k
bit_or-shifted zero zero high h = omega (arith, zero-bit_or (high * 2 ^ 0))
bit_or-shifted zero (suc low) high h = absurd (omega arith)
bit_or-shifted (suc k) low high h =
    let twice : high * 2 ^ suc k ≡ high * 2 ^ k * 2 = rw pow-suc (omega arith) in
    let half : low / 2 < 2 ^ k = omega (arith, pow-suc 2 k) in
    let lower : high * 2 ^ k * 2 / 2 ≡ high * 2 ^ k = omega arith in
    rw (twice, bit_or_lowest low (high * 2 ^ k * 2), lower, bit_or-shifted k (low / 2) high half)
      (omega arith)
