-- ===== src/App/Checksum/Rolling.antt =====
-- The checksum against its closed form, and rolling against computing anew.
use rail.Prelude.{
  ℕ, ◌+◌, ◌-◌, ◌*◌, ◌/◌, ◌%◌, ◌^◌, ◌<◌, ◌≡◌, refl, ap, [], ◌∷◌, ◌++◌, length, length-append, arith,
  true, ltb,
}
use rail.Prelude.Pieces.{take_all}
use rail.Prelude.Bits.{bit_or-shifted}
use rail.Proto.Bytes.{Bytes, IsByte}
use rail.App.Checksum.{u32, extend, Sums, by_one, four, by_four, counted, weak_checksum, roll_weak}

-- The sum of the bytes, and the sum of the sums of all front parts, with no wrap.
unfoldable pub total : Bytes → ℕ
total [] = 0
total (b ∷ rest) = extend b + total rest

unfoldable pub weighted : Bytes → ℕ
weighted [] = 0
weighted (b ∷ rest) = length (b ∷ rest) * extend b + weighted rest

-- The same sums modulo 2 ^ 32.
record Same (s : Sums) (t1 t2 : ℕ) : Type 0 where
  first : s.s1 % 2 ^ 32 ≡ t1 % 2 ^ 32
  second : s.s2 % 2 ^ 32 ≡ t2 % 2 ^ 32

by_one-Same :
    (s : Sums) (t1 t2 : ℕ) (block : Bytes)
    → Same s t1 t2
    → Same (by_one s block) (t1 + total block) (t2 + length block * t1 + weighted block)
unfolding by_one total weighted
by_one-Same s t1 t2 [] h = omega arith
by_one-Same s t1 t2 (b ∷ rest) h =
    let e = extend b in
    let ih =
      by_one-Same (record { s1 = u32 (s.s1 + e); s2 = u32 (s.s2 + u32 (s.s1 + e)) }) (t1 + e)
        (t2 + (t1 + e)) rest (omega arith) in
    omega (arith, ih)

by_four-Same :
    (s : Sums) (t1 t2 : ℕ) (block : Bytes)
    → Same s t1 t2
    → Same (by_four s block) (t1 + total block) (t2 + length block * t1 + weighted block)
unfolding by_four four total weighted
by_four-Same s t1 t2 (a ∷ b ∷ c ∷ d ∷ e ∷ rest) h = omega (
  arith,
  by_four-Same (four s a b c d) (t1 + extend a + extend b + extend c + extend d)
      (t2 + 4 * (t1 + extend a) + 3 * extend b + 2 * extend c + extend d) (e ∷ rest) (omega arith),
)
by_four-Same s t1 t2 [] h = by_one-Same s t1 t2 [] h
by_four-Same s t1 t2 (a ∷ []) h = by_one-Same s t1 t2 (a ∷ []) h
by_four-Same s t1 t2 (a ∷ b ∷ []) h = by_one-Same s t1 t2 (a ∷ b ∷ []) h
by_four-Same s t1 t2 (a ∷ b ∷ c ∷ []) h = by_one-Same s t1 t2 (a ∷ b ∷ c ∷ []) h
by_four-Same s t1 t2 (a ∷ b ∷ c ∷ d ∷ []) h = by_one-Same s t1 t2 (a ∷ b ∷ c ∷ d ∷ []) h

counted-all : (block : Bytes) → length block < 2 ^ 31 → counted block ≡ block
unfolding counted
counted-all block h =
    let whole : length block % 2 ^ 32 ≡ length block = omega arith in
    let short : ltb (length block) (2 ^ 31) ≡ true = ground arith in
    rw (whole, short) (take_all (length block) block (omega arith))

-- The two halves of the checksum of a block shorter than 2 ^ 31 bytes, loops of four and wraps and
-- all: the sum of its bytes and the sum of the sums of its front parts, each modulo 2 ^ 16.
pub weak_checksum-closed :
    (block : Bytes)
    → length block < 2 ^ 31
    → weak_checksum block ≡ total block % 2 ^ 16 + weighted block % 2 ^ 16 * 2 ^ 16
unfolding weak_checksum
weak_checksum-closed block h = rw (counted-all block h) (
    omega (
      arith,
      by_four-Same (record { s1 = 0; s2 = 0 }) 0 0 block (record { first = refl; second = refl }),
    ))

extend-small : (b : ℕ) → IsByte b → extend b < 2 ^ 32
unfolding extend
extend-small b h = ground arith

total-append : (block : Bytes) (i : ℕ) → total (block ++ (i ∷ [])) ≡ total block + extend i
unfolding total
total-append [] i = omega arith
total-append (b ∷ block) i = omega (arith, total-append block i)

weighted-append :
    (block : Bytes) (i : ℕ) → weighted (block ++ (i ∷ [])) ≡ weighted block + total block + extend i
unfolding total weighted
weighted-append [] i = omega arith
weighted-append (b ∷ block) i = omega (
  arith,
  weighted-append block i,
  length-append block (i ∷ []),
  ap (λ n. n * extend b) (length-append block (i ∷ [])),
)

abbrev rolled_first : ℕ → ℕ → ℕ → ℕ
rolled_first sum out entering = u32 (sum % 2 ^ 16 + 2 ^ 32 - extend out + extend entering) % 2 ^ 16

abbrev rolled_second : ℕ → ℕ → ℕ → ℕ → ℕ
rolled_second sum out entering n =
    u32 (sum / 2 ^ 16 + 2 ^ 32 - u32 (n * extend out) + rolled_first sum out entering) % 2 ^ 16

roll_weak-halves :
    (sum out entering n : ℕ)
    → roll_weak sum out entering n
      ≡ rolled_first sum out entering + rolled_second sum out entering n * 2 ^ 16
unfolding roll_weak
roll_weak-halves sum out entering n =
    bit_or-shifted 16 (rolled_first sum out entering) (rolled_second sum out entering n)
      (omega arith)

-- Sliding a window shorter than 2 ^ 31 bytes by one byte gives the checksum of the window that
-- results: rolling and computing anew agree.
pub roll_weak-weak_checksum :
    (out : ℕ) (block : Bytes) (entering : ℕ)
    → IsByte out
    → IsByte entering
    → length (out ∷ block) < 2 ^ 31
    → roll_weak (weak_checksum (out ∷ block)) out entering (length (out ∷ block))
      ≡ weak_checksum (block ++ (entering ∷ []))
unfolding total weighted
roll_weak-weak_checksum out block entering ho hi short = omega (
  arith,
  roll_weak-halves (weak_checksum (out ∷ block)) out entering (length (out ∷ block)),
  weak_checksum-closed (out ∷ block) short,
  weak_checksum-closed (block ++ (entering ∷ []))
      (omega (arith, length-append block (entering ∷ []), short)),
  weighted-append block entering,
  total-append block entering,
  extend-small out ho,
  extend-small entering hi,
)
