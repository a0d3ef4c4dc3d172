-- ===== src/Fuse/Inodes/Moved.antt =====
-- reparent keeps the table whole, whatever inode stands under the new name.
use rail.Prelude.{
  ◌<◌, ◌≡◌, refl, sym, ap, ◌∙◌, true, false, Bool-cases, Option-cases, inl, inr, Option, none, some,
  some-injective, ◌==◌, arith,
}
use rail.Proto.Bytes.{Bytes}
use rail.Fuse.Inodes.{
  Ino, Node, Inodes, put_node, put_name, gain, lose, at_parent, emplace_name, node_or_empty,
  clear_node, clear_clash, settle, reparent_found, reparent,
}
use rail.Fuse.Inodes.Names.{
  Link, link, put_link, same_name_refl, IsNamed, IsNamed-ext, IsNamed-remove, IsNamed-add,
}
use rail.Fuse.Inodes.Counting.{children, children-ext}
use rail.Fuse.Inodes.Table.{
  kids_of, links, HasKids, IsTable, links-lose, links-gain, lose-kids, HasKids-remove, HasKids-add,
}

-- A table with one inode that has lost its name and keeps its place.
record IsLoose (t : Inodes) (moving p : Ino) (n : Bytes) : Type 0 where
  named : IsNamed t.by_name (put_link (links t.nodes) moving none) t.next
  kids : HasKids t.nodes t.next
  rooted : 1 < t.next
  place : links t.nodes moving ≡ some (p, n)
  above : 1 < moving
  below : moving < t.next

unname-IsLoose :
    (t : Inodes) (p : Ino) (n : Bytes) (moving : Ino)
    → IsTable t
    → t.by_name p n ≡ some moving
    → IsLoose (record t { by_name = put_name t.by_name p n none }) moving p n
unname-IsLoose t p n moving h e =
    let place = h.named.forth p n moving e in
    let range = h.named.fresh p n moving place in
    record {
      named = IsNamed-remove t.by_name (links t.nodes) t.next moving p n h.named place;
      kids = h.kids;
      rooted = h.rooted;
      place = place;
      above = range.0;
      below = range.1;
    }

-- The new name is free after the clash is cleared.
abbrev IsCleared : Inodes → Ino → Ino → Bytes → Ino → Bytes → Type 0
IsCleared t moving p n q m = IsLoose t moving p n × (t.by_name q m ≡ none)

clear_node-IsCleared :
    (t : Inodes) (moving p : Ino) (n : Bytes) (q : Ino) (m : Bytes) (i : Ino) (o : Option Node)
    → IsLoose t moving p n
    → t.by_name q m ≡ some i
    → t.nodes i ≡ o
    → IsCleared (clear_node t q m i o) moving p n q m
unfolding clear_node
clear_node-IsCleared t moving p n q m i o h e there = elim (Bool-cases (moving == i)) [
  | inl same ↦ absurd (ground (arith, rw same at (h.named.forth q m i e)))
  | inr apart ↦ go o (rw apart at (h.named.forth q m i e)) apart there
]
  where
    go :
        (o : Option Node)
        → links t.nodes i ≡ some (q, m)
        → (moving == i) ≡ false
        → t.nodes i ≡ o
        → IsCleared (clear_node t q m i o) moving p n q m
    go none at apart gone = absurd (ground (arith, sym (ap link gone) ∙ at))
    go (some node) at apart there = (loose, free)
      where
        is_parent : node.parent ≡ q
        is_parent = ap (λ k. k.0) (some-injective _ _ (sym (ap link there) ∙ at))

        nodes' : Ino → Option Node
        nodes' = put_node (at_parent lose t.nodes node.parent) i none

        kept :
            (k : Ino)
            → put_link (links nodes') moving none k
              ≡ put_link (put_link (links t.nodes) moving none) i none k
        kept k = elim (Bool-cases (i == k)) [
          | inr other ↦ rw other (elim (Bool-cases (moving == k)) [
            | inl own ↦ rw own refl
            | inr foreign ↦ rw foreign (links-lose t.nodes node.parent k)
          ])
          | inl same ↦
              let is : i ≡ k = ground (arith, same) in
              let foreign : (moving == k) ≡ false = ground (arith, apart, is) in
              rw (same, foreign) refl
        ]

        free : put_name t.by_name q m none q m ≡ none
        free = let here : (q == q) ≡ true = ground arith in rw (here, same_name_refl m) refl

        far : (i == moving) ≡ false
        far = ground (arith, apart)

        below_next : i < t.next
        below_next = (h.named.fresh q m i (h.named.forth q m i e)).1

        loose : IsLoose (clear_node t q m i (some node)) moving p n
        loose = record {
          named = IsNamed-ext (put_name t.by_name q m none) _ _ t.next kept (
              IsNamed-remove t.by_name (put_link (links t.nodes) moving none) t.next i q m h.named
                (h.named.forth q m i e));
          kids = rw is_parent (HasKids-remove t.nodes t.next i q m h.kids below_next at);
          rooted = h.rooted;
          place = rw far (links-lose t.nodes node.parent moving ∙ h.place);
          above = h.above;
          below = h.below;
        }

clear_clash-IsCleared :
    (t : Inodes) (moving p : Ino) (n : Bytes) (q : Ino) (m : Bytes) (o : Option Ino)
    → IsLoose t moving p n
    → t.by_name q m ≡ o
    → IsCleared (clear_clash t q m o) moving p n q m
unfolding clear_clash
clear_clash-IsCleared t moving p n q m none h e = (h, e)
clear_clash-IsCleared t moving p n q m (some i) h e =
    clear_node-IsCleared t moving p n q m i (t.nodes i) h e refl

parent-link :
    (o : Option Node) (p : Ino) (n : Bytes) → link o ≡ some (p, n) → (node_or_empty o).parent ≡ p
parent-link none p n h = absurd (ground (arith, h))
parent-link (some node) p n h = ap (λ k. k.0) (some-injective _ _ h)

kids-node_or_empty : (o : Option Node) → (node_or_empty o).kids ≡ kids_of o
kids-node_or_empty none = refl
kids-node_or_empty (some node) = refl

settle-IsTable :
    (t : Inodes) (moving p : Ino) (n : Bytes) (q : Ino) (m : Bytes)
    → IsCleared t moving p n q m
    → q < t.next
    → IsTable (settle t moving q m)
unfolding settle
settle-IsTable t moving p n q m (h, unused) parent_below = record {
  named =
      IsNamed-ext (emplace_name t.by_name q m moving) (put_link without moving (some (q, m)))
        (links new) t.next added
        (IsNamed-add t.by_name without t.next t.next moving q m h.named unused nothing h.above
          h.below parent_below (omega arith));
  kids = HasKids-add left t.next moving q settled h.below refl own others;
  rooted = h.rooted;
}
  where
    old : Ino
    old = (node_or_empty (t.nodes moving)).parent

    place : links t.nodes moving ≡ some (old, n)
    place = h.place ∙ ap (λ k. some (k, n)) (sym (parent-link (t.nodes moving) p n h.place))

    left : Ino → Option Node
    left = at_parent lose t.nodes old

    settled : Node
    settled = record (node_or_empty (left moving)) { parent = q; name = m }

    new : Ino → Option Node
    new = at_parent gain (put_node left moving (some settled)) q

    without : Ino → Link
    without = put_link (links t.nodes) moving none

    here : (moving == moving) ≡ true
    here = ground arith

    nothing : without moving ≡ none
    nothing = rw here refl

    added : (k : Ino) → links new k ≡ put_link without moving (some (q, m)) k
    added k =
        let put : links (put_node left moving (some settled)) k
            ≡ put_link without moving (some (q, m)) k =
          elim (Bool-cases (moving == k)) [
            | inl same ↦ rw same refl
            | inr apart ↦ rw apart (links-lose t.nodes old k)
          ] in
        links-gain (put_node left moving (some settled)) q k ∙ put

    left_out :
        (j : Ino)
        → children without j t.next ≡ children (put_link (links left) moving none) j t.next
    left_out j = children-ext (put_link (links left) moving none) without j t.next same
      where
        same : (k : Ino) → without k ≡ put_link (links left) moving none k
        same k = elim (Bool-cases (moving == k)) [
          | inl at ↦ rw at refl
          | inr apart ↦ rw apart (sym (links-lose t.nodes old k))
        ]

    own : settled.kids ≡ children (put_link (links left) moving none) moving t.next
    own =
        kids-node_or_empty (left moving)
        ∙ lose-kids t.nodes t.next moving old moving old n n h.kids h.below place place
        ∙ left_out moving

    others :
        (j r : Ino) (name : Bytes)
        → (moving == j) ≡ false
        → links left j ≡ some (r, name)
        → kids_of (left j) ≡ children (put_link (links left) moving none) j t.next
    others j r name apart e =
        lose-kids t.nodes t.next moving old j r n name h.kids h.below place
          (sym (links-lose t.nodes old j) ∙ e)
        ∙ left_out j

-- The bound of the inodes stays.
next-clear_clash :
    (t : Inodes) (q : Ino) (m : Bytes) (o : Option Ino) → (clear_clash t q m o).next ≡ t.next
unfolding clear_clash clear_node
next-clear_clash t q m none = refl
next-clear_clash t q m (some i) = elim (Option-cases (t.nodes i)) [
  | inl gone ↦ rw gone refl
  | inr (node, there) ↦ rw there refl
]

reparent_found-IsTable :
    (t : Inodes) (p : Ino) (n : Bytes) (q : Ino) (m : Bytes) (o : Option Ino)
    → IsTable t
    → q < t.next
    → t.by_name p n ≡ o
    → IsTable (reparent_found t p n q m o)
unfolding reparent_found
reparent_found-IsTable t p n q m none h known e = h
reparent_found-IsTable t p n q m (some moving) h known e =
    let unnamed : Inodes = record t { by_name = put_name t.by_name p n none } in
    let bound = next-clear_clash unnamed q m (unnamed.by_name q m) in
    settle-IsTable (clear_clash unnamed q m (unnamed.by_name q m)) moving p n q m
      (clear_clash-IsCleared unnamed moving p n q m (unnamed.by_name q m)
        (unname-IsLoose t p n moving h e) refl)
      (omega (arith, bound, known))

pub reparent-IsTable :
    (t : Inodes) (p : Ino) (n : Bytes) (q : Ino) (m : Bytes)
    → IsTable t
    → q < t.next
    → IsTable (reparent t p n q m)
unfolding reparent
reparent-IsTable t p n q m h known = reparent_found-IsTable t p n q m (t.by_name p n) h known refl
