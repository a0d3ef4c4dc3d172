-- ===== src/Fuse/Inodes/Kept.antt =====
-- The operations on one name keep the table whole.
use rail.Prelude.{
  ℕ, suc, ◌+◌, ◌-◌, ◌≤◌, ◌<◌, ◌≡◌, refl, sym, ap, ◌∙◌, false, ◌||◌, Bool-cases, Option-cases, inl,
  inr, Option, none, some, List, [], ◌∷◌, ◌++◌, length, ◌==◌, ltb, arith,
}
use rail.Proto.Bytes.{Bytes}
use rail.Fuse.Inodes.{
  Ino, Node, Inodes, listed_limit, put_node, put_name, gain, lose, at_parent, emplace_name, create,
  erase, insert_found, insert, trim_one, trim_loop, trim, reserve_found, reserve, release_node,
  release_found, release, forget_node, forget, drop_node, drop_found, drop_name,
}
use rail.Fuse.Inodes.Names.{link, put_link, IsNamed-ext, IsNamed-remove, IsNamed-add}
use rail.Fuse.Inodes.Counting.{is_child, children, children-ext, children-none}
use rail.Fuse.Inodes.Table.{
  kids_of, links, IsTable, links-lose, links-gain, HasKids-remove, HasKids-add,
}

-- A link that the table has none of at an inode that is not handed out.
no_link : (t : Inodes) (i : Ino) → IsTable t → t.next ≤ i → links t.nodes i ≡ none
no_link t i h le = elim (Option-cases (links t.nodes i)) [
  | inl none_there ↦ none_there
  | inr ((p, n), there) ↦ absurd (omega (arith, h.named.fresh p n i there))
]

pub erase-IsTable :
    (t : Inodes) (i : Ino) (node : Node)
    → IsTable t
    → t.nodes i ≡ some node
    → IsTable (erase t i node)
unfolding erase
erase-IsTable t i node h at =
    let here : links t.nodes i ≡ some (node.parent, node.name) = ap link at in
    record {
      named =
          IsNamed-ext (put_name t.by_name node.parent node.name none)
            (put_link (links t.nodes) i none) _ t.next taken
            (IsNamed-remove t.by_name (links t.nodes) t.next i node.parent node.name h.named here);
      kids =
          HasKids-remove t.nodes t.next i node.parent node.name h.kids
            ((h.named.fresh node.parent node.name i here).1) here;
      rooted = h.rooted;
    }
  where
    taken :
        (k : Ino)
        → links (put_node (at_parent lose t.nodes node.parent) i none) k
          ≡ put_link (links t.nodes) i none k
    taken k = elim (Bool-cases (i == k)) [
      | inl same ↦ rw same refl
      | inr apart ↦ rw apart (links-lose t.nodes node.parent k)
    ]

pub create-IsTable :
    (t : Inodes) (p : Ino) (n : Bytes) (refs : ℕ)
    → IsTable t
    → t.by_name p n ≡ none
    → p < t.next
    → IsTable ((create t p n refs).1)
unfolding create
create-IsTable t p n refs h unused known =
    let free : links t.nodes t.next ≡ none = no_link t t.next h (omega arith) in
    record {
      named =
          IsNamed-ext (emplace_name t.by_name p n t.next)
            (put_link (links t.nodes) t.next (some (p, n))) _ (t.next + 1) added
            (IsNamed-add t.by_name (links t.nodes) t.next (t.next + 1) t.next p n h.named unused
              free h.rooted (omega arith) (omega arith) (omega arith));
      kids = HasKids-add t.nodes (t.next + 1) t.next p node (omega arith) refl own others;
      rooted = omega (arith, h.rooted);
    }
  where
    node : Node
    node = record { parent = p; name = n; refs = refs; kids = 0 }

    added :
        (k : Ino)
        → links (at_parent gain (put_node t.nodes t.next (some node)) p) k
          ≡ put_link (links t.nodes) t.next (some (p, n)) k
    added k =
        let put : links (put_node t.nodes t.next (some node)) k
            ≡ put_link (links t.nodes) t.next (some (p, n)) k =
          elim (Bool-cases (t.next == k)) [ inl same ↦ rw same refl | inr apart ↦ rw apart refl ] in
        links-gain (put_node t.nodes t.next (some node)) p k ∙ put

    -- Leaving the new inode out leaves the links as they were.
    left_out : (k : Ino) → put_link (links t.nodes) t.next none k ≡ links t.nodes k
    left_out k = elim (Bool-cases (t.next == k)) [
      | inr apart ↦ rw apart refl
      | inl same ↦
          let is : t.next ≡ k = ground (arith, same) in
          rw same (sym (ap (links t.nodes) (sym is) ∙ no_link t t.next h (omega arith)))
    ]

    one_more :
        (j : Ino)
        → children (put_link (links t.nodes) t.next none) j (t.next + 1)
          ≡ children (links t.nodes) j t.next
    one_more j =
        let next : t.next + 1 ≡ suc t.next = omega arith in
        children-ext (links t.nodes) (put_link (links t.nodes) t.next none) j (t.next + 1) left_out
        ∙ ap (children (links t.nodes) j) next
        ∙ omega (arith, ap (is_child j) (no_link t t.next h (omega arith)))

    own : 0 ≡ children (put_link (links t.nodes) t.next none) t.next (t.next + 1)
    own = sym (one_more t.next ∙ children-none (links t.nodes) t.next t.next childless)
      where
        childless : (k : Ino) → is_child t.next (links t.nodes k) ≡ 0
        childless k = elim (Option-cases (links t.nodes k)) [
          | inl none_there ↦ rw none_there refl
          | inr ((q, m), there) ↦
              let before : q < t.next = (h.named.fresh q m k there).2 in
              let apart : (q == t.next) ≡ false = ground (arith, before) in rw (there, apart) refl
        ]

    others :
        (j q : Ino) (m : Bytes)
        → (t.next == j) ≡ false
        → links t.nodes j ≡ some (q, m)
        → kids_of (t.nodes j) ≡ children (put_link (links t.nodes) t.next none) j (t.next + 1)
    others j q m apart e = h.kids j q m e ∙ sym (one_more j)

-- Refs of a node may change.
refs-IsTable :
    (t : Inodes) (i : Ino) (node : Node) (refs : ℕ)
    → IsTable t
    → t.nodes i ≡ some node
    → IsTable (record t { nodes = put_node t.nodes i (some (record node { refs = refs })) })
refs-IsTable t i node refs h at = record {
  named = IsNamed-ext t.by_name (links t.nodes) (links nodes') t.next same h.named;
  kids = λ j p n e.
      same_kids j
      ∙ h.kids j p n (sym (same j) ∙ e)
      ∙ sym (children-ext (links t.nodes) (links nodes') j t.next same);
  rooted = h.rooted;
}
  where
    nodes' : Ino → Option Node
    nodes' = put_node t.nodes i (some (record node { refs = refs }))

    same : (j : Ino) → links nodes' j ≡ links t.nodes j
    same j = elim (Bool-cases (i == j)) [
      | inr apart ↦ rw apart refl
      | inl here ↦
          let is : i ≡ j = ground (arith, here) in
          rw here (sym (ap link at) ∙ ap (links t.nodes) is)
    ]

    same_kids : (j : Ino) → kids_of (nodes' j) ≡ kids_of (t.nodes j)
    same_kids j = elim (Bool-cases (i == j)) [
      | inr apart ↦ rw apart refl
      | inl here ↦
          let is : i ≡ j = ground (arith, here) in
          rw here (sym (ap kids_of at) ∙ ap (λ k. kids_of (t.nodes k)) is)
    ]

-- Cold may change.
cold-IsTable : (t : Inodes) (cold : List Ino) → IsTable t → IsTable (record t { cold = cold })
cold-IsTable t cold h = record { named = h.named; kids = h.kids; rooted = h.rooted }

insert_found-IsTable :
    (t : Inodes) (p : Ino) (n : Bytes) (found : Option Ino)
    → IsTable t
    → p < t.next
    → t.by_name p n ≡ found
    → IsTable ((insert_found t p n found).1)
unfolding insert_found
insert_found-IsTable t p n none h known e = create-IsTable t p n 1 h e known
insert_found-IsTable t p n (some i) h known e = elim (Option-cases (t.nodes i)) [
  | inl gone ↦ absurd (ground (arith, sym (ap link gone) ∙ h.named.forth p n i e))
  | inr (node, there) ↦ rw there (refs-IsTable t i node (node.refs + 1) h there)
]

pub insert-IsTable :
    (t : Inodes) (p : Ino) (n : Bytes) → IsTable t → p < t.next → IsTable ((insert t p n).1)
unfolding insert
insert-IsTable t p n h known = insert_found-IsTable t p n (t.by_name p n) h known refl

trim_one-IsTable :
    (t : Inodes) (i : Ino) (o : Option Node) → IsTable t → t.nodes i ≡ o → IsTable (trim_one t i o)
unfolding trim_one
trim_one-IsTable t i none h e = h
trim_one-IsTable t i (some node) h e = elim (Bool-cases (ltb 0 node.refs || ltb 0 node.kids)) [
  | inl used ↦ rw used h
  | inr unused ↦ rw unused (erase-IsTable t i node h e)
]

trim_loop-IsTable : (cold : List Ino) (t : Inodes) → IsTable t → IsTable (trim_loop cold t)
unfolding trim_loop
trim_loop-IsTable [] t h = cold-IsTable t [] h
trim_loop-IsTable (i ∷ cold) t h = elim (Bool-cases (ltb listed_limit (length (i ∷ cold)))) [
  | inl full ↦
      rw full (
        trim_loop-IsTable cold (trim_one t i (t.nodes i)) (trim_one-IsTable t i (t.nodes i) h refl))
  | inr room ↦ rw room (cold-IsTable t (i ∷ cold) h)
]

reserve_found-IsTable :
    (t : Inodes) (p : Ino) (n : Bytes) (found : Option Ino)
    → IsTable t
    → p < t.next
    → t.by_name p n ≡ found
    → IsTable ((reserve_found t p n found).1)
unfolding reserve_found trim
reserve_found-IsTable t p n (some i) h known e = h
reserve_found-IsTable t p n none h known e =
    let made = create t p n 0 in
    trim_loop-IsTable (made.1.cold ++ (made.0 ∷ []))
      (record made.1 { cold = made.1.cold ++ (made.0 ∷ []) })
      (cold-IsTable made.1 (made.1.cold ++ (made.0 ∷ [])) (create-IsTable t p n 0 h e known))

pub reserve-IsTable :
    (t : Inodes) (p : Ino) (n : Bytes) → IsTable t → p < t.next → IsTable ((reserve t p n).1)
unfolding reserve
reserve-IsTable t p n h known = reserve_found-IsTable t p n (t.by_name p n) h known refl

release_node-IsTable :
    (t : Inodes) (i : Ino) (o : Option Node)
    → IsTable t
    → t.nodes i ≡ o
    → IsTable (release_node t i o)
unfolding release_node
release_node-IsTable t i none h e = h
release_node-IsTable t i (some node) h e = elim (Bool-cases (ltb 0 node.refs)) [
  | inl used ↦ rw used h
  | inr unused ↦ rw unused (erase-IsTable t i node h e)
]

release_found-IsTable : (t : Inodes) (o : Option Ino) → IsTable t → IsTable (release_found t o)
unfolding release_found
release_found-IsTable t none h = h
release_found-IsTable t (some i) h = release_node-IsTable t i (t.nodes i) h refl

pub release-IsTable : (t : Inodes) (p : Ino) (n : Bytes) → IsTable t → IsTable (release t p n)
unfolding release
release-IsTable t p n h = release_found-IsTable t (t.by_name p n) h

forget_node-IsTable :
    (t : Inodes) (i : Ino) (count : ℕ) (o : Option Node)
    → IsTable t
    → t.nodes i ≡ o
    → IsTable (forget_node t i count o)
unfolding forget_node
forget_node-IsTable t i count none h e = h
forget_node-IsTable t i count (some node) h e = elim (Bool-cases (ltb count node.refs)) [
  | inl left ↦ rw left (refs-IsTable t i node (node.refs - count) h e)
  | inr gone ↦ rw gone (erase-IsTable t i node h e)
]

pub forget-IsTable : (t : Inodes) (i : Ino) (count : ℕ) → IsTable t → IsTable (forget t i count)
unfolding forget
forget-IsTable t i count h = forget_node-IsTable t i count (t.nodes i) h refl

drop_node-IsTable :
    (t : Inodes) (p : Ino) (n : Bytes) (i : Ino) (o : Option Node)
    → IsTable t
    → t.by_name p n ≡ some i
    → t.nodes i ≡ o
    → IsTable (drop_node t p n i o)
unfolding drop_node
drop_node-IsTable t p n i none h e gone =
    absurd (ground (arith, sym (ap link gone) ∙ h.named.forth p n i e))
drop_node-IsTable t p n i (some node) h e there = erase-IsTable t i node h there

drop_found-IsTable :
    (t : Inodes) (p : Ino) (n : Bytes) (o : Option Ino)
    → IsTable t
    → t.by_name p n ≡ o
    → IsTable (drop_found t p n o)
unfolding drop_found
drop_found-IsTable t p n none h e = h
drop_found-IsTable t p n (some i) h e = drop_node-IsTable t p n i (t.nodes i) h e refl

pub drop_name-IsTable : (t : Inodes) (p : Ino) (n : Bytes) → IsTable t → IsTable (drop_name t p n)
unfolding drop_name
drop_name-IsTable t p n h = drop_found-IsTable t p n (t.by_name p n) h refl
