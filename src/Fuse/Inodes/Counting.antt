-- ===== src/Fuse/Inodes/Counting.antt =====
-- How many nodes name an inode as their parent.
use rail.Prelude.{
  ℕ, zero, suc, ◌+◌, ◌≤◌, ◌<◌, ◌≡◌, refl, ap, false, Bool-cases, inl, inr, none, some, ◌==◌,
  if◌then◌else◌, arith,
}
use rail.Fuse.Inodes.{Ino}
use rail.Fuse.Inodes.Names.{Link, put_link}

abbrev pub is_child : Ino → Link → ℕ
is_child p none = 0
is_child p (some (q, n)) = if q == p then 1 else 0

-- Of the inodes below a bound.
abbrev pub children : (Ino → Link) → Ino → ℕ → ℕ
children links p zero = 0
children links p (suc n) = is_child p (links n) + children links p n

pub children-ext :
    (links links' : Ino → Link) (p n : ℕ)
    → ((i : Ino) → links' i ≡ links i)
    → children links' p n ≡ children links p n
children-ext links links' p zero same = refl
children-ext links links' p (suc n) same =
    omega (arith, ap (is_child p) (same n), children-ext links links' p n same)

children-past :
    (links : Ino → Link) (p n i : ℕ) (v : Link)
    → n ≤ i
    → children (put_link links i v) p n ≡ children links p n
children-past links p zero i v h = refl
children-past links p (suc n) i v h =
    let apart : (i == n) ≡ false = ground arith in
    rw apart (ap (λ c. is_child p (links n) + c) (children-past links p n i v (omega arith)))

-- Replacing one link takes its share off and adds the new one's.
pub children-put :
    (links : Ino → Link) (p n i : ℕ) (v : Link)
    → i < n
    → children (put_link links i v) p n + is_child p (links i) ≡ children links p n + is_child p v
children-put links p zero i v h = absurd (omega arith)
children-put links p (suc n) i v h = elim (Bool-cases (i == n)) [
  | inl same ↦
      let is : i ≡ n = ground (arith, same) in
      rw same (
        omega (arith, ap (λ j. is_child p (links j)) is, children-past links p n i v (omega arith)))
  | inr apart ↦ rw apart (omega (arith, children-put links p n i v (ground (arith, apart))))
]

-- No node below the bound has the parent.
pub children-none :
    (links : Ino → Link) (p n : ℕ) → ((i : Ino) → is_child p (links i) ≡ 0) → children links p n ≡ 0
children-none links p zero h = refl
children-none links p (suc n) h = omega (arith, h n, children-none links p n h)
