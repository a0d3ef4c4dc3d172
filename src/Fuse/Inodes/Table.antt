-- ===== src/Fuse/Inodes/Table.antt =====
-- A table that is whole, and the three changes of src/fuse/inodes.cc that the operations are made
-- of.
use rail.Prelude.{
  ℕ, ◌+◌, ◌<◌, ◌≡◌, refl, sym, ap, ◌∙◌, true, false, Bool-cases, inl, inr, Option, none, some, ◌==◌,
  arith,
}
use rail.Proto.Bytes.{Bytes}
use rail.Fuse.Inodes.{Ino, Node, Inodes, put_node, gain, lose, at_parent}
use rail.Fuse.Inodes.Names.{Link, link, put_link, IsNamed}
use rail.Fuse.Inodes.Counting.{is_child, children, children-ext, children-put}

abbrev pub kids_of : Option Node → ℕ
kids_of none = 0
kids_of (some node) = node.kids

abbrev pub links : (Ino → Option Node) → Ino → Link
links nodes i = link (nodes i)

-- Kids is how many nodes name a node as their parent.
abbrev pub HasKids : (Ino → Option Node) → ℕ → Type 0
HasKids nodes next =
    (i p : Ino) (n : Bytes)
    → links nodes i ≡ some (p, n)
    → kids_of (nodes i) ≡ children (links nodes) i next

pub record IsTable (t : Inodes) : Type 0 where
  pub named : IsNamed t.by_name (links t.nodes) t.next
  pub kids : HasKids t.nodes t.next
  pub rooted : 1 < t.next

links-put :
    (nodes : Ino → Option Node) (i j : Ino) (v : Option Node)
    → links (put_node nodes i v) j ≡ put_link (links nodes) i (link v) j
links-put nodes i j v = elim (Bool-cases (i == j)) [
  | inl same ↦ rw same refl
  | inr apart ↦ rw apart refl
]

link-lose : (o : Option Node) → link (lose o) ≡ link o
link-lose none = refl
link-lose (some node) = refl

link-gain : (o : Option Node) → link (gain o) ≡ link o
link-gain none = refl
link-gain (some node) = refl

-- A change of one node that keeps its parent and name keeps all links.
pub links-at :
    (f : Option Node → Option Node) (nodes : Ino → Option Node) (p j : Ino)
    → ((o : Option Node) → link (f o) ≡ link o)
    → links (at_parent f nodes p) j ≡ links nodes j
links-at f nodes p j keeps = elim (Bool-cases (p == j)) [
  | inr apart ↦ rw apart refl
  | inl same ↦
      let is : p ≡ j = ground (arith, same) in
      rw same (keeps (nodes p) ∙ ap (λ k. link (nodes k)) is)
]

pub links-lose :
    (nodes : Ino → Option Node) (p j : Ino) → links (at_parent lose nodes p) j ≡ links nodes j
links-lose nodes p j = links-at lose nodes p j link-lose

pub links-gain :
    (nodes : Ino → Option Node) (p j : Ino) → links (at_parent gain nodes p) j ≡ links nodes j
links-gain nodes p j = links-at gain nodes p j link-gain

kids_of-lose :
    (o : Option Node) (p : Ino) (n : Bytes) (k : ℕ)
    → link o ≡ some (p, n)
    → kids_of o ≡ k + 1
    → kids_of (lose o) ≡ k
kids_of-lose none p n k h e = absurd (ground (arith, h))
kids_of-lose (some node) p n k h e =
    let some_kids : (node.kids == 0) ≡ false = ground (arith, e) in rw some_kids (omega (arith, e))

kids_of-gain :
    (o : Option Node) (p : Ino) (n : Bytes)
    → link o ≡ some (p, n)
    → kids_of (gain o) ≡ kids_of o + 1
kids_of-gain none p n h = absurd (ground (arith, h))
kids_of-gain (some node) p n h = refl

-- Losing the child `i` of `q`: every node's count is that of the nodes without `i`.
pub lose-kids :
    (nodes : Ino → Option Node) (next i q j p : ℕ) (m n : Bytes)
    → HasKids nodes next
    → i < next
    → links nodes i ≡ some (q, m)
    → links nodes j ≡ some (p, n)
    → kids_of (at_parent lose nodes q j) ≡ children (put_link (links nodes) i none) j next
lose-kids nodes next i q j p m n h below at was =
    let count = children-put (links nodes) j next i none below in
    let share = ap (is_child j) at in
    elim (Bool-cases (q == j)) [
      | inr other ↦
          let no_share : is_child j (some (q, m)) ≡ 0 = rw other refl in
          rw other (omega (arith, h j p n was, count, share, no_share))
      | inl parent ↦
          let is : q ≡ j = ground (arith, parent) in
          let one : is_child j (some (q, m)) ≡ 1 = rw parent refl in
          rw parent (
            ap (λ k. kids_of (lose (nodes k))) is
            ∙ kids_of-lose (nodes j) p n (children (put_link (links nodes) i none) j next) was
                (omega (arith, h j p n was, count, share, one)))
    ]

pub HasKids-remove :
    (nodes : Ino → Option Node) (next i q : ℕ) (m : Bytes)
    → HasKids nodes next
    → i < next
    → links nodes i ≡ some (q, m)
    → HasKids (put_node (at_parent lose nodes q) i none) next
HasKids-remove nodes next i q m h below at j p n e = elim (Bool-cases (i == j)) [
  | inl same ↦ absurd (ground (arith, rw same at e))
  | inr apart ↦
      let was : links nodes j ≡ some (p, n) = sym (links-lose nodes q j) ∙ rw apart at e in
      let now : children (links (put_node (at_parent lose nodes q) i none)) j next
          ≡ children (put_link (links nodes) i none) j next =
        children-ext (put_link (links nodes) i none)
          (links (put_node (at_parent lose nodes q) i none)) j next taken in
      rw (apart, now) (lose-kids nodes next i q j p m n h below at was)
]
  where
    taken :
        (k : Ino)
        → links (put_node (at_parent lose nodes q) i none) k ≡ put_link (links nodes) i none k
    taken k = elim (Bool-cases (i == k)) [
      | inl same ↦ rw same refl
      | inr apart ↦ rw apart (links-lose nodes q k)
    ]

-- Gaining a child of `p`, where the counts leave the new inode out.
pub HasKids-add :
    (nodes : Ino → Option Node) (next i p : ℕ) (node : Node)
    → i < next
    → node.parent ≡ p
    → node.kids ≡ children (put_link (links nodes) i none) i next
    → ((j q : Ino) (m : Bytes)
        → (i == j) ≡ false
        → links nodes j ≡ some (q, m)
        → kids_of (nodes j) ≡ children (put_link (links nodes) i none) j next)
    → HasKids (at_parent gain (put_node nodes i (some node)) p) next
HasKids-add nodes next i p node below is_parent own others j q m e =
    let count = children-put without j next i (some (p, node.name)) below in
    let nothing : is_child j (without i) ≡ 0 = rw here refl in
    let now : children (links new) j next
        ≡ children (put_link without i (some (p, node.name))) j next =
      children-ext (put_link without i (some (p, node.name))) (links new) j next added in
    elim (Bool-cases (p == j)) [
      | inr other ↦
          let no_share : is_child j (some (p, node.name)) ≡ 0 = rw other refl in
          rw (other, now) (omega (arith, kids_before, count, nothing, no_share))
      | inl parent ↦
          let is : p ≡ j = ground (arith, parent) in
          let one : is_child j (some (p, node.name)) ≡ 1 = rw parent refl in
          let gained : kids_of (gain (put_node nodes i (some node) j))
              ≡ children (put_link without i (some (p, node.name))) j next =
            kids_of-gain (put_node nodes i (some node) j) q m was
            ∙ omega (arith, kids_before, count, nothing, one) in
          rw (parent, now) (ap (λ k. kids_of (gain (put_node nodes i (some node) k))) is ∙ gained)
    ]
  where
    here : (i == i) ≡ true
    here = ground arith

    without : Ino → Link
    without = put_link (links nodes) i none

    new : Ino → Option Node
    new = at_parent gain (put_node nodes i (some node)) p

    added : (k : Ino) → links new k ≡ put_link without i (some (p, node.name)) k
    added k =
        let put : links (put_node nodes i (some node)) k
            ≡ put_link without i (some (p, node.name)) k =
          elim (Bool-cases (i == k)) [
            | inl same ↦ rw (same, is_parent) refl
            | inr apart ↦ rw apart refl
          ] in
        links-gain (put_node nodes i (some node)) p k ∙ put

    was : links (put_node nodes i (some node)) j ≡ some (q, m)
    was = sym (links-gain (put_node nodes i (some node)) p j) ∙ e

    kids_before : kids_of (put_node nodes i (some node) j) ≡ children without j next
    kids_before = elim (Bool-cases (i == j)) [
      | inl same ↦
          let is : i ≡ j = ground (arith, same) in
          rw same (own ∙ ap (λ k. children without k next) is)
      | inr apart ↦ rw apart (others j q m apart (rw apart at was))
    ]
