-- ===== src/AddressSpace/Mapped.antt =====
-- Where an offset falls.
use native.Mathlib.Nat.{mod-add-div', mod-lt, mul-le-mul_right}
use rail.Prelude.{
  ℕ, ◌+◌, ◌-◌, ◌*◌, ◌/◌, ◌%◌, ◌≤◌, ◌<◌, ◌≡◌, ◌⊎◌, refl, ap, ◌∙◌, Bool-cases, inl, inr, true, ◌||◌,
  none, some, length, leb, ltb, ◌==◌, min, arith,
}
use rail.AddressSpace.{AddressSpace, Mapping, map_at, capacity}

module _ {ℓ} {R : Type ℓ} where
  no_page :
      (s : AddressSpace R) (at : ℕ)
      → ((length s.views == 0) || ltb at s.base) ≡ true
      → (at < s.base) ⊎ (s.base + capacity s ≤ at)
  unfolding capacity
  no_page s at outside = elim (Bool-cases (ltb at s.base)) [
    | inl before ↦ inl (ground (arith, before))
    | inr behind ↦
        let empty : length s.views ≡ 0 = ground (arith, outside, behind) in
        let nothing : length s.views * s.page_bytes ≡ 0 =
          ap (λ v. v * s.page_bytes) empty ∙ omega arith in
        inr (ground (arith, behind, nothing))
  ]

  -- An offset has no mapping before the base or past the capacity. Any other falls into one page:
  -- the mapping is the byte that the offset stands for, and it stays in that page.
  pub map_at_lem :
      (s : AddressSpace R) (at n : ℕ)
      → 0 < s.page_bytes
      → ((map_at s at n ≡ none) × ((at < s.base) ⊎ (s.base + capacity s ≤ at)))
        ⊎ ((m : Mapping) × (map_at s at n ≡ some m)
            × (m.page < length s.views)
            × (s.base + (m.page * s.page_bytes + m.offset) ≡ at)
            × (m.offset + m.length ≤ s.page_bytes)
            × (m.length ≤ n))
  unfolding map_at capacity
  map_at_lem s at n pos =
      let into = at - s.base in
      let split = mod-add-div' into s.page_bytes in
      let small = mod-lt into pos in
      elim (Bool-cases ((length s.views == 0) || ltb at s.base)) [
        | inl outside ↦ inl (rw outside refl, no_page s at outside)
        | inr inside ↦ elim (Bool-cases (leb (length s.views) (into / s.page_bytes))) [
          | inl past ↦
              let over : length s.views * s.page_bytes ≤ into / s.page_bytes * s.page_bytes =
                mul-le-mul_right s.page_bytes (ground (arith, past)) in
              inl (rw (inside, past) refl, inr (ground (arith, inside, over, split)))
          | inr there ↦
              let m : Mapping = record {
                page = into / s.page_bytes;
                offset = into % s.page_bytes;
                length = min n (s.page_bytes - into % s.page_bytes);
              } in
              inr (
                m,
                rw (inside, there) refl,
                ground (arith, there),
                ground (arith, inside, split),
                omega (arith, small),
                omega arith,
              )
        ]
      ]
