-- ===== src/Prelude/Pieces.antt =====
-- Front parts and rests of lists, cut in several places.
use rail.Prelude.{
  ℕ, zero, suc, ◌+◌, ◌-◌, ◌≤◌, ◌≡◌, refl, sym, ap, ◌∙◌, List, [], ◌∷◌, ◌++◌, length, take, drop,
  take-append-drop, append_assoc, arith,
}

module _ {ℓ} {A : Type ℓ} where
  pub take-nil : (m : ℕ) → [] ≡ take {A = A} m []
  take-nil zero = refl
  take-nil (suc m) = refl

  pub drop-nil : (m : ℕ) → drop {A = A} m [] ≡ []
  drop-nil zero = refl
  drop-nil (suc m) = refl

  pub take-drop : (n m : ℕ) (xs : List A) → take n xs ++ take m (drop n xs) ≡ take (n + m) xs
  take-drop zero m xs = let e : zero + m ≡ m = omega arith in rw e
  take-drop (suc n) m (x ∷ xs) =
      let e : suc n + m ≡ suc (n + m) = omega arith in rw e (ap (λ t. x ∷ t) (take-drop n m xs))
  take-drop (suc n) m [] = let e : suc n + m ≡ suc (n + m) = omega arith in rw e (sym (take-nil m))

  pub drop-drop : (n m : ℕ) (xs : List A) → drop m (drop n xs) ≡ drop (n + m) xs
  drop-drop zero m xs = let e : zero + m ≡ m = omega arith in rw e
  drop-drop (suc n) m (x ∷ xs) =
      let e : suc n + m ≡ suc (n + m) = omega arith in rw e (drop-drop n m xs)
  drop-drop (suc n) m [] = let e : suc n + m ≡ suc (n + m) = omega arith in rw e (drop-nil m)

  pub drop-append_ge :
      (n : ℕ) (xs ys : List A) → length xs ≤ n → drop n (xs ++ ys) ≡ drop (n - length xs) ys
  drop-append_ge n [] ys h = let e : n - 0 ≡ n = omega arith in rw e
  drop-append_ge zero (x ∷ xs) ys h = absurd (omega arith)
  drop-append_ge (suc n) (x ∷ xs) ys h =
      let e : suc n - length (x ∷ xs) ≡ n - length xs = omega arith in
      drop-append_ge n xs ys (omega arith) ∙ rw e

  pub drop_all : (k : ℕ) (xs : List A) → length xs ≤ k → drop k xs ≡ []
  drop_all k [] h = drop-nil k
  drop_all zero (x ∷ xs) h = absurd (omega arith)
  drop_all (suc k) (x ∷ xs) h = drop_all k xs (omega arith)

  -- What one call took and what is left make what was left before.
  pub take-drop-from :
      (done n : ℕ) (sent all : List A)
      → (sent ++ take n (drop done all)) ++ drop (done + n) all ≡ sent ++ drop done all
  take-drop-from done n sent all =
      rw (append_assoc, ← drop-drop done n all, take-append-drop n (drop done all))

  pub take_all : (n : ℕ) (xs : List A) → length xs ≤ n → take n xs ≡ xs
  take_all zero [] h = refl
  take_all (suc n) [] h = refl
  take_all zero (x ∷ xs) h = absurd (omega arith)
  take_all (suc n) (x ∷ xs) h = ap (λ t. x ∷ t) (take_all n xs (omega arith))
