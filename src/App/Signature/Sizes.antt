-- ===== src/App/Signature/Sizes.antt =====
-- What chooseBlockLength and chooseStrongLength compute.
use rail.Prelude.{
  ℕ, zero, suc, ◌+◌, ◌-◌, ◌*◌, ◌/◌, ◌%◌, ◌^◌, ◌≤◌, ◌<◌, ◌≡◌, refl, sym, ap, ◌∙◌, true, false, ltb,
  leb, ◌==◌, if◌then◌else◌, max, Bool-cases, inl, inr, ◌⊎◌, arith,
}
use native.Mathlib.Nat.{mul-le-mul_left, mul-div_cancel, pow-suc, one-le-pow, pow-le-pow_right}
use rail.App.Signature.{first_bit, set_bit, clear_bit, try_bit, refine, choose_block_length}

-- One round that goes on.
first_bit_step :
    (fuel l c : ℕ)
    → (l / 4 == 0) ≡ false
    → c * 2 < 2 ^ 32
    → first_bit (suc fuel) l c ≡ first_bit fuel (l / 4) (c * 2)
unfolding first_bit
first_bit_step fuel l c more h =
    let fits : c * 2 % 2 ^ 32 ≡ c * 2 = omega arith in rw (more, fits) refl

-- The exponent of a power of four at most `l`, with the next one above it.
first_bit_lem :
    (fuel l c : ℕ)
    → 0 < l
    → l < 4 ^ suc fuel
    → c * 2 ^ fuel < 2 ^ 32
    → (j : ℕ) × (first_bit fuel l c ≡ c * 2 ^ j) × (4 ^ j ≤ l) × (l < 4 ^ suc j)
unfolding first_bit
first_bit_lem zero l c pos h small = (0, omega arith, omega arith, omega arith)
first_bit_lem (suc fuel) l c pos h small = elim (Bool-cases (l / 4 == 0)) [
  | inl done ↦ (0, rw done (omega arith), omega arith, ground arith)
  | inr more ↦
      let double : c * 2 ^ suc fuel ≡ c * 2 * 2 ^ fuel = rw pow-suc (omega arith) in
      let at_least : c * 2 * 1 ≤ c * 2 * 2 ^ fuel =
        mul-le-mul_left (c * 2) (one-le-pow fuel 2 (omega arith)) in
      let (j, is, low, high) =
        first_bit_lem fuel (l / 4) (c * 2) (ground arith) (omega (arith, pow-suc 4 (suc fuel)))
          (omega arith) in
      let shifted : c * 2 * 2 ^ j ≡ c * 2 ^ suc j = rw (pow-suc 2 j) (omega arith) in
      (
        suc j,
        first_bit_step fuel l c more (omega arith) ∙ is ∙ shifted,
        omega (arith, pow-suc 4 j),
        omega (arith, pow-suc 4 (suc j)),
      )
]

-- What one round does to a value whose bits lie above C: it tries the bit, and keeps it where the
-- square still fits.
try_bit_lem :
    (file b c m : ℕ)
    → 0 < c
    → b ≡ m * (2 * c)
    → try_bit file b c ≡ (if ltb file ((b + c) * (b + c)) then b else b + c)
unfolding try_bit set_bit clear_bit
try_bit_lem file b c m pos is =
    let cancel : b + c - c ≡ b = omega arith in rw (clear, set, cancel) refl
  where
    above : b ≡ m * 2 * c
    above = is ∙ omega arith

    clear : (b / c % 2 == 0) ≡ true
    clear = rw (above, mul-div_cancel (m * 2) pos) (ground arith)

    set : ((b + c) / c % 2 == 0) ≡ false
    set =
        let one_more : (b + c) / c ≡ m * 2 + 1 =
          rw above (ap (λ t. t / c) (omega arith) ∙ mul-div_cancel (m * 2 + 1) pos) in
        rw one_more (ground arith)

-- The largest multiple of `step` whose square is at most the file's length.
pub record IsRoot (step file_length r : ℕ) : Type 0 where
  multiple : ℕ
  is : r ≡ multiple * step
  low : r * r ≤ file_length
  high : file_length < (r + step) * (r + step)

try_bit-IsRoot : (file b c : ℕ) → 0 < c → IsRoot (2 * c) file b → IsRoot c file (try_bit file b c)
try_bit-IsRoot file b c pos h = elim (Bool-cases (ltb file ((b + c) * (b + c)))) [
  | inl over ↦
      let same : try_bit file b c ≡ b = try_bit_lem file b c h.multiple pos h.is ∙ rw over refl in
      rw same (record {
        multiple = h.multiple * 2;
        is = h.is ∙ omega arith;
        low = h.low;
        high = ground arith;
      })
  | inr under ↦
      let same : try_bit file b c ≡ b + c =
        try_bit_lem file b c h.multiple pos h.is ∙ rw under refl in
      let next : b + c + c ≡ b + 2 * c = omega arith in
      rw (same) (record {
        multiple = h.multiple * 2 + 1;
        is = omega (arith, h.is);
        low = ground arith;
        high = rw next h.high;
      })
]

refine-IsRoot :
    (i fuel file b : ℕ)
    → i < fuel
    → IsRoot (2 * (8 * 2 ^ i)) file b
    → IsRoot 8 file (refine fuel file b (8 * 2 ^ i))
unfolding refine
refine-IsRoot i zero file b h root = elim h [ ]
refine-IsRoot zero (suc fuel) file b h root = try_bit-IsRoot file b 8 (omega arith) root
refine-IsRoot (suc i) (suc fuel) file b h root =
    let half : 8 * 2 ^ suc i / 2 ≡ 8 * 2 ^ i = rw (pow-suc 2 i) (omega arith) in
    let double : 8 * 2 ^ suc i ≡ 2 * (8 * 2 ^ i) = rw (pow-suc 2 i) (omega arith) in
    let goes_on : leb 8 (8 * 2 ^ i) ≡ true = ground (arith, one-le-pow i 2 (omega arith)) in
    let root' : IsRoot (2 * (8 * 2 ^ i)) file (try_bit file b (8 * 2 ^ suc i)) = rw (sym double) (
      try_bit-IsRoot file b (8 * 2 ^ suc i) (omega (arith, one-le-pow (suc i) 2 (omega arith)))
        root) in
    rw (half, goes_on)
      (refine-IsRoot i fuel file (try_bit file b (8 * 2 ^ suc i)) (omega arith) root')

square : (j : ℕ) → 2 ^ j * 2 ^ j ≡ 4 ^ j
square zero = omega arith
square (suc j) =
    let ih = square j in
    let two : 2 ^ suc j ≡ 2 * 2 ^ j = rw (pow-suc 2 j) (omega arith) in
    let four : 4 ^ suc j ≡ 4 * 4 ^ j = rw (pow-suc 4 j) (omega arith) in
    rw (two, four) (omega (arith, ih))

-- The loop of chooseBlockLength, from the power of two whose square the length reaches.
refine_lem :
    (j file : ℕ)
    → 64 ≤ file
    → 4 ^ j ≤ file
    → file < 4 ^ suc j
    → j < 32
    → IsRoot 8 file (refine 32 file 0 (2 ^ j))
refine_lem zero file large low high few = absurd (omega arith)
refine_lem (suc zero) file large low high few = absurd (omega arith)
refine_lem (suc (suc zero)) file large low high few = absurd (omega arith)
refine_lem (suc (suc (suc i))) file large low high few =
    let j = suc (suc (suc i)) in
    let c : 2 ^ j ≡ 8 * 2 ^ i =
      rw (pow-suc 2 (suc (suc i)), pow-suc 2 (suc i), pow-suc 2 i) (omega arith) in
    let squared : 8 * 2 ^ i * (8 * 2 ^ i) ≡ 4 ^ j = rw (← c) (square j) in
    let start : IsRoot (2 * (8 * 2 ^ i)) file 0 = record {
      multiple = 0;
      is = omega arith;
      low = omega arith;
      high = omega (arith, squared, pow-suc 4 j);
    } in
    rw c (refine-IsRoot i 32 file 0 (omega arith) start)

-- A basis file of at most 490000 bytes has blocks of 700 bytes. For a longer one, which a uint64_t
-- measures, let 2 ^ j be the largest power of two whose square fits the file's length: a limit of at
-- most 2 ^ j is the length of the blocks, and with a limit above it they are as long as the square
-- root of the file's length, rounded down to a multiple of 8 and 700 at least.
pub choose_block_length-IsRoot :
    (file max_block_size : ℕ)
    → file < 2 ^ 64
    → ((file ≤ 490000) × (choose_block_length file max_block_size ≡ 700))
      ⊎ ((490000 < file)
          × (j : ℕ) × (4 ^ j ≤ file)
          × (file < 4 ^ suc j)
          × (((max_block_size ≤ 2 ^ j) × (choose_block_length file max_block_size ≡ max_block_size))
              ⊎ ((2 ^ j < max_block_size)
                  × (r : ℕ) × IsRoot 8 file r
                  × (choose_block_length file max_block_size ≡ max r 700))))
unfolding choose_block_length
choose_block_length-IsRoot file max_block_size fits = elim (Bool-cases (leb file 490000)) [
  | inl short ↦ inl (ground arith, rw short refl)
  | inr long ↦
      let (j, is, low, high) = first_bit_lem 31 file 1 (ground arith) (omega arith) (omega arith) in
      let c : first_bit 31 file 1 ≡ 2 ^ j = is ∙ omega arith in
      let few : j < 32 = elim (Bool-cases (leb 32 j)) [
        | inl many ↦
            let under_j : 32 ≤ j = ground arith in
            let big : 4 ^ 32 ≤ 4 ^ j = pow-le-pow_right (omega arith) under_j in
            absurd (omega arith)
        | inr few ↦ ground arith
      ] in
      let some_bit : (2 ^ j == 0) ≡ false = ground (arith, one-le-pow j 2 (omega arith)) in
      inr (
        ground arith,
        j,
        low,
        high,
        elim (Bool-cases (leb max_block_size (2 ^ j))) [
          | inl over ↦ inl (ground arith, rw (long, c, some_bit, over) refl)
          | inr under ↦ inr (
            ground arith,
            refine 32 file 0 (2 ^ j),
            refine_lem j file (ground arith) low high few,
            rw (long, c, some_bit, under) refl,
          )
        ],
      )
]
