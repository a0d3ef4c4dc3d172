-- ===== src/Io/Turn/Queues.antt =====
-- A queue of awaiters: how often one is in it, and how many are ahead of it.
use rail.Prelude.{
  ℕ, suc, ◌+◌, ◌≤◌, ◌<◌, ◌≡◌, refl, ap, true, false, Bool-cases, inl, inr, List, [], ◌∷◌, ◌++◌,
  ◌==◌, if◌then◌else◌, arith,
}
use rail.Io.Turn.{erase_all}

abbrev pub times : ℕ → List ℕ → ℕ
times a [] = 0
times a (x ∷ xs) = (if x == a then 1 else 0) + times a xs

abbrev pub ahead : ℕ → List ℕ → ℕ
ahead a [] = 0
ahead a (x ∷ xs) = if x == a then 0 else suc (ahead a xs)

pub times-append : (a : ℕ) (xs ys : List ℕ) → times a (xs ++ ys) ≡ times a xs + times a ys
times-append a [] ys = omega arith
times-append a (x ∷ xs) ys = omega (arith, times-append a xs ys)

pub times-erase_all : (a : ℕ) (xs : List ℕ) → times a (erase_all a xs) ≡ 0
times-erase_all a [] = refl
times-erase_all a (x ∷ xs) = elim (Bool-cases (x == a)) [
  | inl same ↦ rw same (times-erase_all a xs)
  | inr apart ↦ rw (apart, apart) (omega (arith, times-erase_all a xs))
]

pub times-erase_other :
    (a b : ℕ) (xs : List ℕ) → (b == a) ≡ false → times a (erase_all b xs) ≡ times a xs
times-erase_other a b [] apart = refl
times-erase_other a b (x ∷ xs) apart = elim (Bool-cases (x == b)) [
  | inl same ↦
      let other : (x == a) ≡ false = ground (arith, same, apart) in
      rw (same, other) (omega (arith, times-erase_other a b xs apart))
  | inr kept ↦ rw kept (ap (λ n. (if x == a then 1 else 0) + n) (times-erase_other a b xs apart))
]

pub ahead-append : (a : ℕ) (xs ys : List ℕ) → 0 < times a xs → ahead a (xs ++ ys) ≡ ahead a xs
ahead-append a [] ys h = absurd (omega arith)
ahead-append a (x ∷ xs) ys h = elim (Bool-cases (x == a)) [
  | inl same ↦ rw same refl
  | inr apart ↦
      let later : 0 < times a xs = omega (arith, rw apart at h) in
      rw apart (ap suc (ahead-append a xs ys later))
]

pub ahead-erase_all :
    (a b : ℕ) (xs : List ℕ) → (b == a) ≡ false → ahead a (erase_all b xs) ≤ ahead a xs
ahead-erase_all a b [] apart = omega arith
ahead-erase_all a b (x ∷ xs) apart = elim (Bool-cases (x == b)) [
  | inl same ↦
      let other : (x == a) ≡ false = ground (arith, same, apart) in
      rw (same, other) (omega (arith, ahead-erase_all a b xs apart))
  | inr kept ↦ elim (Bool-cases (x == a)) [
    | inl here ↦ rw (kept, here) (omega arith)
    | inr other ↦ rw (kept, other) (omega (arith, ahead-erase_all a b xs apart))
  ]
]

-- What an awaiter at the head leaves behind.
pub times-rest : (a : ℕ) (xs : List ℕ) → times a (a ∷ xs) ≡ 1 + times a xs
times-rest a xs = let same : (a == a) ≡ true = ground arith in rw same refl
