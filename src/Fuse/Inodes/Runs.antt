-- ===== src/Fuse/Inodes/Runs.antt =====
-- Every table that the operations of Inodes reach from the empty one is whole.
use rail.Prelude.{ℕ, ◌<◌, none, [], arith}
use rail.Proto.Bytes.{Bytes}
use rail.Fuse.Inodes.{Ino, Inodes, insert, reserve, release, forget, drop_name, reparent}
use rail.Fuse.Inodes.Table.{IsTable}
use rail.Fuse.Inodes.Kept.{
  insert-IsTable, reserve-IsTable, release-IsTable, forget-IsTable, drop_name-IsTable,
}
use rail.Fuse.Inodes.Moved.{reparent-IsTable}

-- Next starts past the root, and no inode is there.
abbrev pub started : Bytes → Inodes
started root = record { cold = []; nodes = λ i. none; by_name = λ p n. none; root = root; next = 2 }

-- One call. A parent is the root or an inode that was handed out.
pub data Change (t : Inodes) : Inodes → Type 0 where
  inserted : (p : Ino) (n : Bytes) → p < t.next → Change t ((insert t p n).1)
  reserved : (p : Ino) (n : Bytes) → p < t.next → Change t ((reserve t p n).1)
  released : (p : Ino) (n : Bytes) → Change t (release t p n)
  forgotten : (i : Ino) (count : ℕ) → Change t (forget t i count)
  dropped : (p : Ino) (n : Bytes) → Change t (drop_name t p n)
  moved : (p : Ino) (n : Bytes) (q : Ino) (m : Bytes) → q < t.next → Change t (reparent t p n q m)

pub data Reach (root : Bytes) : Inodes → Type 0 where
  start : Reach root (started root)
  call : {t u : Inodes} → Reach root t → Change t u → Reach root u

started-IsTable : (root : Bytes) → IsTable (started root)
started-IsTable root = record {
  named = record {
    forth = λ p n i e. absurd (ground (arith, e));
    back = λ p n i e. absurd (ground (arith, e));
    fresh = λ p n i e. absurd (ground (arith, e));
  };
  kids = λ i p n e. absurd (ground (arith, e));
  rooted = omega arith;
}

Change-IsTable : {t u : Inodes} → IsTable t → Change t u → IsTable u
Change-IsTable {t} h (inserted p n known) = insert-IsTable t p n h known
Change-IsTable {t} h (reserved p n known) = reserve-IsTable t p n h known
Change-IsTable {t} h (released p n) = release-IsTable t p n h
Change-IsTable {t} h (forgotten i count) = forget-IsTable t i count h
Change-IsTable {t} h (dropped p n) = drop_name-IsTable t p n h
Change-IsTable {t} h (moved p n q m known) = reparent-IsTable t p n q m h known

-- After any calls of insert, reserve, release, forget, drop and reparent on an empty table, whose
-- parents were handed out, a name leads to an inode if and only if the node of that inode has that
-- parent and that name, every inode with a node is above the root and below the one that comes
-- after, and the kids of a node are as many as the nodes that name it as their parent.
pub Reach-IsTable : (root : Bytes) (t : Inodes) → Reach root t → IsTable t
Reach-IsTable root t start = started-IsTable root
Reach-IsTable root t (call before made) = Change-IsTable (Reach-IsTable root _ before) made
