-- ===== src/FdCache/Bounded.antt =====
-- The order and the entries of the cache name the same paths, each once, and no more than the
-- limit.
use rail.Prelude.{
  ℕ, suc, ◌+◌, ◌-◌, ◌≤◌, ◌<◌, ◌≡◌, refl, sym, ap, ◌∙◌, true, false, Bool-cases, inl, inr, List, [],
  ◌∷◌, length, ltb, if◌then◌else◌, arith,
}
use rail.Proto.Bytes.{Bytes}
use rail.Fuse.Inodes.{same_name}
use rail.Fuse.Inodes.Names.{same_name→≡, same_name_refl}
use rail.FdCache.{Entry, FdCache, erase_order, erase_open, last_of, drop_last}

abbrev pub keys : List (Bytes × Entry) → List Bytes
keys [] = []
keys ((k, e) ∷ rest) = k ∷ keys rest

abbrev pub occurs : Bytes → List Bytes → ℕ
occurs k [] = 0
occurs k (x ∷ xs) = (if same_name x k then 1 else 0) + occurs k xs

pub keys-erase_open :
    (k : Bytes) (entries : List (Bytes × Entry))
    → keys (erase_open k entries) ≡ erase_order k (keys entries)
keys-erase_open k [] = refl
keys-erase_open k ((j, e) ∷ rest) = elim (Bool-cases (same_name j k)) [
  | inl same ↦ rw same refl
  | inr apart ↦ rw apart (ap (λ t. j ∷ t) (keys-erase_open k rest))
]

pub length-keys : (entries : List (Bytes × Entry)) → length (keys entries) ≡ length entries
length-keys [] = refl
length-keys (p ∷ rest) = omega (arith, length-keys rest)

-- Erasing a key takes one of it away, and none of another.
pub occurs-erase_same :
    (k : Bytes) (xs : List Bytes) → occurs k (erase_order k xs) ≡ occurs k xs - 1
occurs-erase_same k [] = omega arith
occurs-erase_same k (x ∷ xs) = elim (Bool-cases (same_name x k)) [
  | inl same ↦ rw same (omega arith)
  | inr apart ↦ rw (apart, apart) (omega (arith, occurs-erase_same k xs))
]

occurs-erase_other :
    (j k : Bytes) (xs : List Bytes)
    → same_name k j ≡ false
    → occurs j (erase_order k xs) ≡ occurs j xs
occurs-erase_other j k [] apart = refl
occurs-erase_other j k (x ∷ xs) apart = elim (Bool-cases (same_name x k)) [
  | inl same ↦
      let other : same_name x j ≡ false = ap (λ n. same_name n j) (same_name→≡ x k same) ∙ apart in
      rw (same, other) (omega arith)
  | inr kept ↦
      rw kept (ap (λ n. (if same_name x j then 1 else 0) + n) (occurs-erase_other j k xs apart))
]

pub length-erase_order :
    (k : Bytes) (xs : List Bytes) → 0 < occurs k xs → suc (length (erase_order k xs)) ≡ length xs
length-erase_order k [] h = absurd (omega arith)
length-erase_order k (x ∷ xs) h = elim (Bool-cases (same_name x k)) [
  | inl same ↦ rw same refl
  | inr apart ↦
      let later : 0 < occurs k xs = omega (arith, rw apart at h) in
      rw apart (ap suc (length-erase_order k xs later))
]

pub erase_order-absent : (k : Bytes) (xs : List Bytes) → occurs k xs ≡ 0 → erase_order k xs ≡ xs
erase_order-absent k [] h = refl
erase_order-absent k (x ∷ xs) h = elim (Bool-cases (same_name x k)) [
  | inl same ↦ absurd (omega (arith, rw same at h))
  | inr apart ↦ rw apart (ap (λ t. x ∷ t) (erase_order-absent k xs (omega (arith, rw apart at h))))
]

-- What is left of the order without its last key is what is left without that key.
pub occurs-drop_last :
    (j k : Bytes) (rest : List Bytes)
    → occurs j (drop_last (k ∷ rest)) + (if same_name (last_of k rest) j then 1 else 0)
      ≡ occurs j (k ∷ rest)
occurs-drop_last j k [] = omega arith
occurs-drop_last j k (l ∷ rest) = omega (arith, occurs-drop_last j l rest)

length-drop_last : (k : Bytes) (rest : List Bytes) → length (drop_last (k ∷ rest)) ≡ length rest
length-drop_last k [] = refl
length-drop_last k (l ∷ rest) = ap suc (length-drop_last l rest)

pub record IsMatched (order ks : List Bytes) : Type 0 where
  pub same : (k : Bytes) → occurs k order ≡ occurs k ks
  pub once : (k : Bytes) → occurs k ks ≤ 1
  pub sizes : length order ≡ length ks

pub record IsKept (c : FdCache) : Type 0 where
  pub matched : IsMatched c.order (keys c.entries)
  pub bounded : length c.entries ≤ c.limit

pub erase-IsMatched :
    (k : Bytes) (order ks : List Bytes)
    → IsMatched order ks
    → IsMatched (erase_order k order) (erase_order k ks)
erase-IsMatched k order ks h = elim (Bool-cases (ltb 0 (occurs k ks))) [
  | inr absent ↦
      let gone : occurs k ks ≡ 0 = ground (arith, absent) in
      rw (erase_order-absent k ks gone, erase_order-absent k order (h.same k ∙ gone)) h
  | inl there ↦ record {
    same = λ j. elim (Bool-cases (same_name k j)) [
      | inl is ↦
          let e : k ≡ j = same_name→≡ k j is in
          rw (← e) (omega (arith, occurs-erase_same k order, occurs-erase_same k ks, h.same k))
      | inr apart ↦
          occurs-erase_other j k order apart ∙ h.same j ∙ sym (occurs-erase_other j k ks apart)
    ];
    once = λ j. elim (Bool-cases (same_name k j)) [
      | inl is ↦
          let e : k ≡ j = same_name→≡ k j is in
          rw (← e) (omega (arith, occurs-erase_same k ks, h.once k))
      | inr apart ↦ omega (arith, occurs-erase_other j k ks apart, h.once j)
    ];
    sizes = omega (
      arith,
      length-erase_order k ks (ground (arith, there)),
      h.sizes,
      length-erase_order k order (ground (arith, there, h.same k)),
    );
  }
]

pub push-IsMatched :
    (k : Bytes) (order ks : List Bytes)
    → IsMatched order ks
    → occurs k ks ≡ 0
    → IsMatched (k ∷ order) (k ∷ ks)
push-IsMatched k order ks h absent = record {
  same = λ j. ap (λ n. (if same_name k j then 1 else 0) + n) (h.same j);
  once = λ j. elim (Bool-cases (same_name k j)) [
    | inl is ↦
        let e : k ≡ j = same_name→≡ k j is in rw is (omega (arith, absent, ap (λ i. occurs i ks) e))
    | inr apart ↦ rw apart (omega (arith, h.once j))
  ];
  sizes = ap suc h.sizes;
}

-- A key that is used moves to the front.
pub front-IsMatched :
    (k : Bytes) (order ks : List Bytes)
    → IsMatched order ks
    → 0 < occurs k ks
    → IsMatched (k ∷ erase_order k order) ks
front-IsMatched k order ks h there = record {
  same = λ j. elim (Bool-cases (same_name k j)) [
    | inl is ↦
        let e : k ≡ j = same_name→≡ k j is in
        rw is (
          omega (
            arith,
            ap (λ i. occurs i (erase_order k order)) (sym e),
            occurs-erase_same k order,
            h.same k,
            there,
            ap (λ i. occurs i ks) e,
          ))
    | inr apart ↦ rw apart (omega (arith, occurs-erase_other j k order apart, h.same j))
  ];
  once = h.once;
  sizes = length-erase_order k order (omega (arith, h.same k, there)) ∙ h.sizes;
}

pub evict-IsMatched :
    (k : Bytes) (rest ks : List Bytes)
    → IsMatched (k ∷ rest) ks
    → IsMatched (drop_last (k ∷ rest)) (erase_order (last_of k rest) ks)
      × (suc (length (erase_order (last_of k rest) ks)) ≡ length ks)
evict-IsMatched k rest ks h =
    let last = last_of k rest in
    let here : same_name last last ≡ true = same_name_refl last in
    let there : 0 < occurs last ks =
      omega (arith, h.same last, rw here at (occurs-drop_last last k rest)) in
    let short = length-erase_order last ks there in
    (
      record {
        same = λ j. elim (Bool-cases (same_name last j)) [
          | inl is ↦
              let e : last ≡ j = same_name→≡ last j is in
              omega (
                arith,
                rw is at (occurs-drop_last j k rest),
                h.same j,
                ap (λ i. occurs i ks) e,
                occurs-erase_same last ks,
                ap (λ i. occurs i (erase_order last ks)) e,
              )
          | inr apart ↦ omega (
            arith,
            rw apart at (occurs-drop_last j k rest),
            h.same j,
            occurs-erase_other j last ks apart,
          )
        ];
        once = (erase-IsMatched last (k ∷ rest) ks h).once;
        sizes = omega (arith, length-drop_last k rest, h.sizes, short);
      },
      short,
    )

pub length-erase_order_le : (k : Bytes) (xs : List Bytes) → length (erase_order k xs) ≤ length xs
length-erase_order_le k [] = omega arith
length-erase_order_le k (x ∷ xs) = elim (Bool-cases (same_name x k)) [
  | inl same ↦ rw same (omega arith)
  | inr apart ↦ rw apart (omega (arith, length-erase_order_le k xs))
]

pub occurs-erase_none :
    (j k : Bytes) (xs : List Bytes) → occurs j xs ≡ 0 → occurs j (erase_order k xs) ≡ 0
occurs-erase_none j k xs absent = elim (Bool-cases (same_name k j)) [
  | inr apart ↦ occurs-erase_other j k xs apart ∙ absent
  | inl is ↦
      let e : k ≡ j = same_name→≡ k j is in
      ap (λ i. occurs j (erase_order i xs)) e ∙ occurs-erase_same j xs ∙ omega (arith, absent)
]
