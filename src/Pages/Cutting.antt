-- ===== src/Pages/Cutting.antt =====
-- A range cut in pages: where each starts and how long it is.
use rail.Prelude.{
  ℕ, zero, suc, ◌+◌, ◌-◌, ◌≤◌, ◌<◌, ◌≡◌, refl, ap, ◌∙◌, true, false, Bool-cases, inl, inr, List, [],
  ◌∷◌, min, ltb, if◌then◌else◌, arith,
}

abbrev pub cut_pages : ℕ → ℕ → ℕ → ℕ → List (ℕ × ℕ)
cut_pages page_bytes zero at end = []
cut_pages page_bytes (suc n) at end =
    let rest = cut_pages page_bytes n (at + min page_bytes (end - at)) end in
    if ltb at end then (at, min page_bytes (end - at)) ∷ rest else []

-- A page has a byte at least.
abbrev pub pages : ℕ → ℕ → ℕ → List (ℕ × ℕ)
pages page_bytes at end = cut_pages page_bytes (end - at) at end

cut_pages-enough :
    (page_bytes n m at end : ℕ)
    → 0 < page_bytes
    → end - at ≤ n
    → end - at ≤ m
    → cut_pages page_bytes n at end ≡ cut_pages page_bytes m at end
cut_pages-enough page_bytes zero zero at end pos hn hm = refl
cut_pages-enough page_bytes zero (suc m) at end pos hn hm =
    let done : ltb at end ≡ false = ground (arith, hn) in rw done refl
cut_pages-enough page_bytes (suc n) zero at end pos hn hm =
    let done : ltb at end ≡ false = ground (arith, hm) in rw done refl
cut_pages-enough page_bytes (suc n) (suc m) at end pos hn hm = elim (Bool-cases (ltb at end)) [
  | inr done ↦ rw done refl
  | inl more ↦
      let left : at < end = ground (arith, more) in
      rw more (
        ap (λ rest. (at, min page_bytes (end - at)) ∷ rest)
          (cut_pages-enough page_bytes n m (at + min page_bytes (end - at)) end pos
            (omega (arith, pos, hn, left)) (omega (arith, pos, hm, left))))
]

pub pages-more :
    (page_bytes at end : ℕ)
    → 0 < page_bytes
    → at < end
    → pages page_bytes at end
      ≡ (at, min page_bytes (end - at)) ∷ pages page_bytes (at + min page_bytes (end - at)) end
pages-more page_bytes at end pos left = go (end - at) (omega arith)
  where
    go :
        (n : ℕ)
        → end - at ≤ n
        → cut_pages page_bytes (end - at) at end
          ≡ (at, min page_bytes (end - at)) ∷ pages page_bytes (at + min page_bytes (end - at)) end
    go n enough =
        let more : ltb at end ≡ true = ground (arith, left) in
        cut_pages-enough page_bytes (end - at) (suc n) at end pos (omega arith)
          (omega (arith, enough))
        ∙ rw more (
            ap (λ rest. (at, min page_bytes (end - at)) ∷ rest)
              (cut_pages-enough page_bytes n (end - (at + min page_bytes (end - at)))
                (at + min page_bytes (end - at)) end pos (omega (arith, enough)) (omega arith)))

pub pages-done : (page_bytes at end : ℕ) → end ≤ at → pages page_bytes at end ≡ []
pages-done page_bytes at end past =
    let none_left : end - at ≡ 0 = omega (arith, past) in
    ap (λ n. cut_pages page_bytes n at end) none_left
