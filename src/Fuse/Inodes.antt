-- ===== src/Fuse/Inodes.antt =====
-- Inodes of src/fuse/inodes.cc and include/rail/fuse/inodes.h. An unordered_map is a function into
-- Option. A key of ByName is the decimal of an inode, a slash and a name, so it is the inode and
-- the name. Next and Refs do not reach 2 ^ 64.
pub mod Names
pub mod Counting
pub mod Table
pub mod Kept
pub mod Moved
pub mod Runs
use rail.Prelude.{
  ℕ, zero, suc, ◌+◌, ◌-◌, ◌^◌, Bool, true, false, ◌&&◌, ◌||◌, not, Option, none, some, List, [],
  ◌∷◌, ◌++◌, length, ltb, leb, ◌==◌, if◌then◌else◌,
}
use rail.Proto.Bytes.{Bytes}

abbrev pub Ino : Type 0
Ino = ℕ

abbrev pub root_ino : Ino
root_ino = 1

-- kListedLimit
abbrev pub listed_limit : ℕ
listed_limit = 65536

pub record Node : Type 0 where
  pub parent : Ino
  pub name : Bytes
  pub refs : ℕ
  pub kids : ℕ

pub record Inodes : Type 0 where
  pub cold : List Ino
  pub nodes : Ino → Option Node
  pub by_name : Ino → Bytes → Option Ino
  pub root : Bytes
  pub next : Ino

unfoldable pub same_name : Bytes → Bytes → Bool
same_name [] [] = true
same_name [] (b ∷ bs) = false
same_name (a ∷ front) [] = false
same_name (a ∷ front) (b ∷ bs) = (a == b) && same_name front bs

abbrev pub put_node : (Ino → Option Node) → Ino → Option Node → Ino → Option Node
put_node nodes i v j = if i == j then v else nodes j

abbrev pub put_name :
    (Ino → Bytes → Option Ino) → Ino → Bytes → Option Ino → Ino → Bytes → Option Ino
put_name by_name p n v q m = if (p == q) && same_name n m then v else by_name q m

-- Kids++ and Kids-- of the node, where it is there.
abbrev pub gain : Option Node → Option Node
gain none = none
gain (some node) = some (record node { kids = node.kids + 1 })

abbrev pub lose : Option Node → Option Node
lose none = none
lose (some node) =
    some (record node { kids = if node.kids == 0 then 2 ^ 64 - 1 else node.kids - 1 })

abbrev pub at_parent : (Option Node → Option Node) → (Ino → Option Node) → Ino → Ino → Option Node
at_parent f nodes p = put_node nodes p (f (nodes p))

-- ByName.emplace leaves a name that is there.
abbrev pub emplace_name : (Ino → Bytes → Option Ino) → Ino → Bytes → Ino → Ino → Bytes → Option Ino
emplace_name by_name p n i = elim (by_name p n) [
  | none ↦ put_name by_name p n (some i)
  | some j ↦ by_name
]

-- Inodes::create, with the new inode.
unfoldable pub create : Inodes → Ino → Bytes → ℕ → Ino × Inodes
create t parent name refs =
    let node : Node = record { parent = parent; name = name; refs = refs; kids = 0 } in
    (
      t.next,
      record t {
        next = t.next + 1;
        nodes = at_parent gain (put_node t.nodes t.next (some node)) parent;
        by_name = emplace_name t.by_name parent name t.next;
      },
    )

-- Inodes::erase, of a node that is there.
unfoldable pub erase : Inodes → Ino → Node → Inodes
erase t i node = record t {
  nodes = put_node (at_parent lose t.nodes node.parent) i none;
  by_name = put_name t.by_name node.parent node.name none;
}

-- What trim does with one inode that it takes off Cold.
unfoldable pub trim_one : Inodes → Ino → Option Node → Inodes
trim_one t oldest none = t
trim_one t oldest (some node) =
    if ltb 0 node.refs || ltb 0 node.kids then t else erase t oldest node

-- The loop of trim, over Cold.
unfoldable pub trim_loop : List Ino → Inodes → Inodes
trim_loop [] t = record t { cold = [] }
trim_loop (oldest ∷ cold) t =
    let later = trim_loop cold (trim_one t oldest (t.nodes oldest)) in
    if ltb listed_limit (length (oldest ∷ cold)) then later else record t { cold = oldest ∷ cold }

unfoldable pub trim : Inodes → Inodes
trim t = trim_loop t.cold t

abbrev pub add_ref : Option Node → Option Node
add_ref none = some (record { parent = 0; name = []; refs = 1; kids = 0 })
add_ref (some node) = some (record node { refs = node.refs + 1 })

-- Inodes::insert
unfoldable pub insert_found : Inodes → Ino → Bytes → Option Ino → Ino × Inodes
insert_found t parent name none = create t parent name 1
insert_found t parent name (some i) =
    (i, record t { nodes = put_node t.nodes i (add_ref (t.nodes i)) })

unfoldable pub insert : Inodes → Ino → Bytes → Ino × Inodes
insert t parent name = insert_found t parent name (t.by_name parent name)

-- Inodes::reserve
unfoldable pub reserve_found : Inodes → Ino → Bytes → Option Ino → Ino × Inodes
reserve_found t parent name (some i) = (i, t)
reserve_found t parent name none =
    let made = create t parent name 0 in
    (made.0, trim (record made.1 { cold = made.1.cold ++ (made.0 ∷ []) }))

unfoldable pub reserve : Inodes → Ino → Bytes → Ino × Inodes
reserve t parent name = reserve_found t parent name (t.by_name parent name)

-- Inodes::release
unfoldable pub release_node : Inodes → Ino → Option Node → Inodes
release_node t i none = t
release_node t i (some node) = if ltb 0 node.refs then t else erase t i node

unfoldable pub release_found : Inodes → Option Ino → Inodes
release_found t none = t
release_found t (some i) = release_node t i (t.nodes i)

unfoldable pub release : Inodes → Ino → Bytes → Inodes
release t parent name = release_found t (t.by_name parent name)

-- Inodes::forget
unfoldable pub forget_node : Inodes → Ino → ℕ → Option Node → Inodes
forget_node t i count none = t
forget_node t i count (some node) =
    if ltb count node.refs
    then record t { nodes = put_node t.nodes i (some (record node { refs = node.refs - count })) }
    else erase t i node

unfoldable pub forget : Inodes → Ino → ℕ → Inodes
forget t i count = forget_node t i count (t.nodes i)

-- Inodes::drop. A name with no node is erased alone.
unfoldable pub drop_node : Inodes → Ino → Bytes → Ino → Option Node → Inodes
drop_node t parent name i none = record t { by_name = put_name t.by_name parent name none }
drop_node t parent name i (some node) = erase t i node

unfoldable pub drop_found : Inodes → Ino → Bytes → Option Ino → Inodes
drop_found t parent name none = t
drop_found t parent name (some i) = drop_node t parent name i (t.nodes i)

unfoldable pub drop_name : Inodes → Ino → Bytes → Inodes
drop_name t parent name = drop_found t parent name (t.by_name parent name)

-- What reparent does with the inode whose name it takes over.
unfoldable pub clear_node : Inodes → Ino → Bytes → Ino → Option Node → Inodes
clear_node t parent name i none = record t { by_name = put_name t.by_name parent name none }
clear_node t parent name i (some node) = record t {
  nodes = put_node (at_parent lose t.nodes node.parent) i none;
  by_name = put_name t.by_name parent name none;
}

unfoldable pub clear_clash : Inodes → Ino → Bytes → Option Ino → Inodes
clear_clash t parent name none = t
clear_clash t parent name (some i) = clear_node t parent name i (t.nodes i)

-- Nodes[Moving], which makes an empty node where there is none.
abbrev pub node_or_empty : Option Node → Node
node_or_empty none = record { parent = 0; name = []; refs = 0; kids = 0 }
node_or_empty (some node) = node

-- reparent from the decrement at the old parent on.
unfoldable pub settle : Inodes → Ino → Ino → Bytes → Inodes
settle t moving parent name =
    let node = node_or_empty (t.nodes moving) in
    let left = at_parent lose t.nodes node.parent in
    let named =
      put_node left moving
        (some (record (node_or_empty (left moving)) { parent = parent; name = name })) in
    record t {
      nodes = at_parent gain named parent;
      by_name = emplace_name t.by_name parent name moving;
    }

unfoldable pub reparent_found : Inodes → Ino → Bytes → Ino → Bytes → Option Ino → Inodes
reparent_found t parent name new_parent new_name none = t
reparent_found t parent name new_parent new_name (some moving) =
    let unnamed = record t { by_name = put_name t.by_name parent name none } in
    settle (clear_clash unnamed new_parent new_name (unnamed.by_name new_parent new_name)) moving
      new_parent new_name

-- Inodes::reparent
unfoldable pub reparent : Inodes → Ino → Bytes → Ino → Bytes → Inodes
reparent t parent name new_parent new_name =
    reparent_found t parent name new_parent new_name (t.by_name parent name)

unfoldable pub parent_of : Inodes → Ino → Ino
parent_of t i = elim (t.nodes i) [ none ↦ root_ino | some node ↦ node.parent ]

-- Inodes::join, where "." is 0x2e.
unfoldable pub join : Bytes → Bytes → Bytes
join dir name =
    if (length dir == 0) || same_name dir (0x2e ∷ []) then name else dir ++ (0x2f ∷ name)

abbrev pub joined : Bytes → Option (Option Bytes) → Option (Option Bytes)
joined name none = none
joined name (some none) = some none
joined name (some (some dir)) = some (some (join dir name))

-- The climb of path to the root, with the joins on the way back: some none where an inode is not
-- there, and none where the climb is longer than the fuel.
unfoldable pub climb_with : (Ino → Option (Option Bytes)) → Option Node → Option (Option Bytes)
climb_with up none = some none
climb_with up (some node) = joined node.name (up node.parent)

unfoldable pub climb : ℕ → Inodes → Ino → Option (Option Bytes)
climb zero t i = none
climb (suc fuel) t i =
    if i == root_ino then some (some t.root) else climb_with (climb fuel t) (t.nodes i)

-- Inodes::path
unfoldable pub path : ℕ → Inodes → Ino → Option Bytes
path fuel t i = elim (climb fuel t i) [
  | none ↦ none
  | some none ↦ some []
  | some (some found) ↦ some found
]

-- Inodes::known
unfoldable pub known : Inodes → Ino → Bool
known t i = (i == root_ino) || elim (t.nodes i) [ none ↦ false | some node ↦ true ]
