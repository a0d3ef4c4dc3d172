-- ===== src/Tests/Tree.antt =====
-- A table of inodes with two names, one of which is moved over the other.
use rail.Prelude.{◌≡◌, refl, false, none, some, [], ◌∷◌, arith}
use rail.Proto.Bytes.{Bytes}
use rail.Fuse.Inodes.{
  Inodes, same_name, create, erase, insert_found, insert, reserve_found, reserve, trim, trim_loop,
  trim_one, release_node, release_found, release, forget_node, forget, clear_node, clear_clash,
  settle, reparent_found, reparent, parent_of, join, climb_with, climb, path, known,
}
use rail.Fuse.Inodes.Table.{IsTable}
use rail.Fuse.Inodes.Runs.{started, inserted, moved, Reach, start, call, Reach-IsTable}

abbrev root_path : Bytes
root_path = 0x2e ∷ []

abbrev name_a : Bytes
name_a = 0x61 ∷ []

abbrev name_b : Bytes
name_b = 0x62 ∷ []

abbrev one_file : Inodes
one_file = (insert (started root_path) 1 name_a).1

abbrev two_files : Inodes
two_files = (insert one_file 2 name_b).1

abbrev moved_over : Inodes
moved_over = reparent two_files 2 name_b 1 name_a

nested_path : path 3 two_files 3 ≡ some (0x61 ∷ 0x2f ∷ 0x62 ∷ [])
unfolding path climb climb_with join insert insert_found create same_name
nested_path = refl

moved_path : path 3 moved_over 3 ≡ some name_a
unfolding path climb climb_with join insert insert_found create same_name reparent reparent_found
    clear_clash clear_node settle
moved_path = refl

overwritten_unknown : known moved_over 2 ≡ false
unfolding known insert insert_found create same_name reparent reparent_found clear_clash clear_node
    settle
overwritten_unknown = refl

parent_moved : parent_of moved_over 3 ≡ 1
unfolding parent_of insert insert_found create same_name reparent reparent_found clear_clash
    clear_node settle
parent_moved = refl

forgotten_name : (forget one_file 2 1).by_name 1 name_a ≡ none
unfolding forget forget_node erase insert insert_found create same_name
forgotten_name = refl

released_name : (release (reserve one_file 1 name_b).1 1 name_b).by_name 1 name_b ≡ none
unfolding release release_found release_node erase reserve reserve_found trim trim_loop trim_one
    insert insert_found create same_name
released_name = refl

moved_Reach : Reach root_path moved_over
unfolding insert insert_found create same_name
moved_Reach =
    call (call (call start (inserted 1 name_a (omega arith))) (inserted 2 name_b (omega arith)))
      (moved 2 name_b 1 name_a (omega arith))

Reach-IsTable_example : IsTable moved_over
Reach-IsTable_example = Reach-IsTable root_path moved_over moved_Reach
