-- ===== src/Fuse/Inodes/Names.antt =====
-- Names and inodes lead to each other: what adding a name and taking it away keep.
use rail.Prelude.{
  ℕ, ◌≤◌, ◌<◌, ◌≡◌, refl, sym, ap, ◌∙◌, Bool, true, ◌&&◌, Bool-cases, inl, inr, Option, none, some,
  some-injective, [], ◌∷◌, ◌==◌, if◌then◌else◌, arith,
}
use rail.Proto.Bytes.{Bytes}
use rail.Fuse.Inodes.{Ino, Node, same_name, put_name, emplace_name}

pub same_name→≡ : (a b : Bytes) → same_name a b ≡ true → a ≡ b
unfolding same_name
same_name→≡ [] [] h = refl
same_name→≡ [] (b ∷ bs) h = absurd (ground (arith, h))
same_name→≡ (a ∷ front) [] h = absurd (ground (arith, h))
same_name→≡ (a ∷ front) (b ∷ bs) h =
    let first : a ≡ b = ground (arith, h) in
    rw (first, same_name→≡ front bs (ground (arith, h))) refl

pub same_name_refl : (a : Bytes) → same_name a a ≡ true
unfolding same_name
same_name_refl [] = refl
same_name_refl (a ∷ front) =
    let same : (a == a) ≡ true = ground arith in rw (same, same_name_refl front) refl

-- The parent and the name of a node, where there is one.
abbrev pub Link : Type 0
Link = Option (Ino × Bytes)

abbrev pub link : Option Node → Link
link none = none
link (some node) = some (node.parent, node.name)

abbrev pub put_link : (Ino → Link) → Ino → Link → Ino → Link
put_link links i v j = if i == j then v else links j

pub record IsNamed (by_name : Ino → Bytes → Option Ino) (links : Ino → Link) (next : ℕ)
    : Type 0 where
  pub forth : (p : Ino) (n : Bytes) (i : Ino) → by_name p n ≡ some i → links i ≡ some (p, n)
  pub back : (p : Ino) (n : Bytes) (i : Ino) → links i ≡ some (p, n) → by_name p n ≡ some i
  pub fresh :
      (p : Ino) (n : Bytes) (i : Ino) → links i ≡ some (p, n) → (1 < i) × (i < next) × (p < next)

abbrev pub is_key : Ino → Bytes → Ino → Bytes → Bool
is_key p n q m = (p == q) && same_name n m

is_key_refl : (p : Ino) (n : Bytes) → is_key p n p n ≡ true
is_key_refl p n = let same : (p == p) ≡ true = ground arith in rw (same, same_name_refl n) refl

is_key→≡ : (p : Ino) (n : Bytes) (q : Ino) (m : Bytes) → is_key p n q m ≡ true → (p ≡ q) × (n ≡ m)
is_key→≡ p n q m h = (ground (arith, h), same_name→≡ n m (ground (arith, h)))

pub IsNamed-ext :
    (by_name : Ino → Bytes → Option Ino) (links links' : Ino → Link) (next : ℕ)
    → ((i : Ino) → links' i ≡ links i)
    → IsNamed by_name links next
    → IsNamed by_name links' next
IsNamed-ext by_name links links' next same h = record {
  forth = λ p n i e. same i ∙ h.forth p n i e;
  back = λ p n i e. h.back p n i (sym (same i) ∙ e);
  fresh = λ p n i e. h.fresh p n i (sym (same i) ∙ e);
}

-- Taking an inode and its name away.
pub IsNamed-remove :
    (by_name : Ino → Bytes → Option Ino) (links : Ino → Link) (next i p : ℕ) (n : Bytes)
    → IsNamed by_name links next
    → links i ≡ some (p, n)
    → IsNamed (put_name by_name p n none) (put_link links i none) next
IsNamed-remove by_name links next i p n h at = record { forth = forth; back = back; fresh = fresh }
  where
    forth :
        (q : Ino) (m : Bytes) (j : Ino)
        → put_name by_name p n none q m ≡ some j
        → put_link links i none j ≡ some (q, m)
    forth q m j e = elim (Bool-cases (is_key p n q m)) [
      | inl key ↦ absurd (ground (arith, rw key at e))
      | inr other ↦
          let old : links j ≡ some (q, m) = h.forth q m j (rw other at e) in
          elim (Bool-cases (i == j)) [
            | inr apart ↦ rw apart old
            | inl same ↦
                let is : i ≡ j = ground (arith, same) in
                let both = some-injective _ _ (sym at ∙ ap links is ∙ old) in
                let key : is_key p n q m ≡ true =
                  rw (ap (λ k. k.0) both, ap (λ k. k.1) both) (is_key_refl q m) in
                absurd (ground (arith, sym key ∙ other))
          ]
    ]

    back :
        (q : Ino) (m : Bytes) (j : Ino)
        → put_link links i none j ≡ some (q, m)
        → put_name by_name p n none q m ≡ some j
    back q m j e = elim (Bool-cases (i == j)) [
      | inl same ↦ absurd (ground (arith, rw same at e))
      | inr apart ↦
          let found : by_name q m ≡ some j = h.back q m j (rw apart at e) in
          elim (Bool-cases (is_key p n q m)) [
            | inr other ↦ rw other found
            | inl key ↦
                let (ps, ns) = is_key→≡ p n q m key in
                let mine : by_name q m ≡ some i = rw (← ps, ← ns) (h.back p n i at) in
                let is : i ≡ j = some-injective i j (sym mine ∙ found) in
                absurd (ground (arith, apart, is))
          ]
    ]

    fresh :
        (q : Ino) (m : Bytes) (j : Ino)
        → put_link links i none j ≡ some (q, m)
        → (1 < j) × (j < next) × (q < next)
    fresh q m j e = elim (Bool-cases (i == j)) [
      | inl same ↦ absurd (ground (arith, rw same at e))
      | inr apart ↦ h.fresh q m j (rw apart at e)
    ]

-- Adding an inode under a name that is free.
pub IsNamed-add :
    (by_name : Ino → Bytes → Option Ino) (links : Ino → Link) (next next' i p : ℕ) (n : Bytes)
    → IsNamed by_name links next
    → by_name p n ≡ none
    → links i ≡ none
    → 1 < i
    → i < next'
    → p < next'
    → next ≤ next'
    → IsNamed (emplace_name by_name p n i) (put_link links i (some (p, n))) next'
IsNamed-add by_name links next next' i p n h unused no_link above below parent_below le =
    rw free_name (record { forth = forth; back = back; fresh = fresh })
  where
    free_name : emplace_name by_name p n i ≡ put_name by_name p n (some i)
    free_name = rw (emplace_name, unused) refl

    forth :
        (q : Ino) (m : Bytes) (j : Ino)
        → put_name by_name p n (some i) q m ≡ some j
        → put_link links i (some (p, n)) j ≡ some (q, m)
    forth q m j e = elim (Bool-cases (is_key p n q m)) [
      | inl key ↦
          let (ps, ns) = is_key→≡ p n q m key in
          let is : i ≡ j = some-injective i j (rw key at e) in
          let same : (i == j) ≡ true = ground (arith, is) in rw (same, ps, ns) refl
      | inr other ↦
          let old : links j ≡ some (q, m) = h.forth q m j (rw other at e) in
          elim (Bool-cases (i == j)) [
            | inr apart ↦ rw apart old
            | inl same ↦
                let is : i ≡ j = ground (arith, same) in
                absurd (ground (arith, sym no_link ∙ ap links is ∙ old))
          ]
    ]

    back :
        (q : Ino) (m : Bytes) (j : Ino)
        → put_link links i (some (p, n)) j ≡ some (q, m)
        → put_name by_name p n (some i) q m ≡ some j
    back q m j e = elim (Bool-cases (i == j)) [
      | inl same ↦
          let is : i ≡ j = ground (arith, same) in
          let both = some-injective _ _ (rw same at e) in
          let key : is_key p n q m ≡ true =
            rw (ap (λ k. k.0) both, ap (λ k. k.1) both) (is_key_refl q m) in
          rw key (ap some is)
      | inr apart ↦
          let found : by_name q m ≡ some j = h.back q m j (rw apart at e) in
          elim (Bool-cases (is_key p n q m)) [
            | inr other ↦ rw other found
            | inl key ↦
                let (ps, ns) = is_key→≡ p n q m key in
                let gone : by_name q m ≡ none = rw (← ps, ← ns) unused in
                absurd (ground (arith, sym gone ∙ found))
          ]
    ]

    fresh :
        (q : Ino) (m : Bytes) (j : Ino)
        → put_link links i (some (p, n)) j ≡ some (q, m)
        → (1 < j) × (j < next') × (q < next')
    fresh q m j e = elim (Bool-cases (i == j)) [
      | inl same ↦
          let is : i ≡ j = ground (arith, same) in
          let both = some-injective _ _ (rw same at e) in omega (arith, is, ap (λ k. k.0) both)
      | inr apart ↦ let old = h.fresh q m j (rw apart at e) in omega (arith, old, le)
    ]
