-- ===== src/Memory/Taking.antt =====
-- The run that takeLocked picks, and a region that is set.
use rail.Prelude.{
  ℕ, zero, suc, ◌+◌, ◌-◌, ◌≤◌, ◌<◌, ◌≡◌, ◌≢◌, refl, ap, ◌∙◌, Bool-cases, Option-cases, inl, inr,
  some, some-injective, List, [], ◌∷◌, length, get_or, set, ltb, arith,
}
use rail.Memory.{MemoryRegion, no_region, pick_in, pick}
use rail.Memory.Frames.{AllFree, find_run-free}

module _ {ℓ} {A : Type ℓ} where
  pub get_or-set_same :
      (xs : List A) (i : ℕ) (v d : A) → i < length xs → get_or (set xs i v) i d ≡ v
  get_or-set_same [] i v d h = absurd (omega arith)
  get_or-set_same (x ∷ xs) zero v d h = refl
  get_or-set_same (x ∷ xs) (suc i) v d h = get_or-set_same xs i v d (omega arith)

  pub get_or-set_other :
      (xs : List A) (i j : ℕ) (v d : A) → i ≢ j → get_or (set xs i v) j d ≡ get_or xs j d
  get_or-set_other [] i j v d h = refl
  get_or-set_other (x ∷ xs) zero zero v d h = absurd (h refl)
  get_or-set_other (x ∷ xs) zero (suc j) v d h = refl
  get_or-set_other (x ∷ xs) (suc i) zero v d h = refl
  get_or-set_other (x ∷ xs) (suc i) (suc j) v d h = get_or-set_other xs i j v d (λ e. h (ap suc e))

  pub length-set : (xs : List A) (i : ℕ) (v : A) → length (set xs i v) ≡ length xs
  length-set [] i v = refl
  length-set (x ∷ xs) zero v = refl
  length-set (x ∷ xs) (suc i) v = ap suc (length-set xs i v)

module _ {ℓ} {A : Type ℓ} where
  pub set_past : (xs : List A) (i : ℕ) (v : A) → length xs ≤ i → set xs i v ≡ xs
  set_past [] i v h = refl
  set_past (x ∷ xs) zero v h = absurd (omega arith)
  set_past (x ∷ xs) (suc i) v h = ap (λ t. x ∷ t) (set_past xs i v (omega arith))

  pub get_or_past : (xs : List A) (i : ℕ) (d : A) → length xs ≤ i → get_or xs i d ≡ d
  get_or_past [] i d h = refl
  get_or_past (x ∷ xs) zero d h = absurd (omega arith)
  get_or_past (x ∷ xs) (suc i) d h = get_or_past xs i d (omega arith)

-- The frames of a region, free and in a row.
pub record HasRoom (r : MemoryRegion) (first frames : ℕ) : Type 0 where
  pub free : AllFree r.taken first frames
  pub inside : first + frames ≤ length r.taken

pick_in-HasRoom :
    (frames first : ℕ) (r : MemoryRegion)
    → 0 < frames
    → pick_in frames r ≡ some first
    → HasRoom r first frames
unfolding pick_in
pick_in-HasRoom frames first r pos h = elim (Bool-cases (ltb (length r.taken - r.used) frames)) [
  | inl full ↦ absurd (ground (arith, rw full at h))
  | inr roomy ↦
      let (free, inside) = find_run-free frames first r.taken pos (rw roomy at h) in
      record { free = free; inside = inside }
]

pub pick-HasRoom :
    (frames k home first : ℕ) (rs : List MemoryRegion)
    → 0 < frames
    → pick frames k rs ≡ some (home, first)
    → (j : ℕ) × (k + j ≡ home) × (j < length rs) × HasRoom (get_or rs j no_region) first frames
unfolding pick
pick-HasRoom frames k home first [] pos h = absurd (ground (arith, h))
pick-HasRoom frames k home first (r ∷ rs) pos h = elim (Option-cases (pick_in frames r)) [
  | inl none_here ↦
      let (j, at, below, room) =
        pick-HasRoom frames (k + 1) home first rs pos (rw none_here at h) in
      (suc j, omega arith, omega arith, room)
  | inr (f, here) ↦
      let found = some-injective (k, f) (home, first) (rw here at h) in
      let same : f ≡ first = ap (λ p. p.1) found in
      (
        0,
        omega (arith, ap (λ p. p.0) found),
        omega arith,
        pick_in-HasRoom frames first r pos (here ∙ ap some same),
      )
]
