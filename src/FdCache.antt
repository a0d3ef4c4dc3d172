-- ===== src/FdCache.antt =====
-- FdCache of src/file-service.cc: the descriptors that the daemon keeps open, the one used last
-- first. What stat and open of the system say is a parameter, and so is how std::format writes the
-- flags.
pub mod Bounded
pub mod Runs
pub mod Current
use rail.Prelude.{
  ℕ, zero, suc, ◌+◌, ◌-◌, Bool, true, false, ◌&&◌, not, Option, none, some, List, [], ◌∷◌, ◌++◌,
  length, drop, ltb, leb, ◌==◌, if◌then◌else◌,
}
use rail.Result.{Result, ok, err, fail, system, ◌>>=◌}
use rail.Proto.Bytes.{Bytes}
use rail.Fuse.Inodes.{same_name}

-- Entry, whose Position is where the key stands in Order.
pub record Entry : Type 0 where
  pub file : ℕ
  pub device : ℕ
  pub inode : ℕ

-- Entries is Open, the pairs of keys and entries.
pub record FdCache : Type 0 where
  pub limit : ℕ
  pub order : List Bytes
  pub entries : List (Bytes × Entry)

abbrev pub find_key : Bytes → List (Bytes × Entry) → Option Entry
find_key key [] = none
find_key key ((k, e) ∷ rest) = if same_name k key then some e else find_key key rest

-- Order.erase and Open.erase of one key.
abbrev pub erase_order : Bytes → List Bytes → List Bytes
erase_order key [] = []
erase_order key (k ∷ rest) = if same_name k key then rest else k ∷ erase_order key rest

abbrev pub erase_open : Bytes → List (Bytes × Entry) → List (Bytes × Entry)
erase_open key [] = []
erase_open key ((k, e) ∷ rest) = if same_name k key then rest else (k, e) ∷ erase_open key rest

abbrev pub last_of : Bytes → List Bytes → Bytes
last_of k [] = k
last_of k (l ∷ rest) = last_of l rest

-- Order.pop_back
abbrev pub drop_last : List Bytes → List Bytes
drop_last [] = []
drop_last (k ∷ []) = []
drop_last (k ∷ l ∷ rest) = k ∷ drop_last (l ∷ rest)

unfoldable pub evict_oldest : FdCache → List Bytes → FdCache
evict_oldest c [] = c
evict_oldest c (k ∷ rest) = record c {
  entries = erase_open (last_of k rest) c.entries;
  order = drop_last (k ∷ rest);
}

abbrev pub is_same : Option (ℕ × ℕ) → Entry → Bool
is_same none e = false
is_same (some (device, inode)) e = (e.device == device) && (e.inode == inode)

abbrev pub entry_of : ℕ → Option (ℕ × ℕ) → Entry
entry_of fd none = record { file = fd; device = 0; inode = 0 }
entry_of fd (some (device, inode)) = record { file = fd; device = device; inode = inode }

-- get from ::open on: the descriptor it gives, or its errno.
unfoldable pub open_new : FdCache → Bytes → Option (ℕ × ℕ) → Result ℕ → FdCache × Result ℕ
open_new c key now (err e) = (c, err e)
open_new c key now (ok fd) =
    let room = if leb c.limit (length c.entries) then evict_oldest c c.order else c in
    (
      record room { order = key ∷ room.order; entries = (key, entry_of fd now) ∷ room.entries },
      ok fd,
    )

unfoldable pub get_found :
    FdCache → Bytes → Option (ℕ × ℕ) → Result ℕ → Option Entry → FdCache × Result ℕ
get_found c key now opened none = open_new c key now opened
get_found c key now opened (some e) =
    let stale = record c { order = erase_order key c.order; entries = erase_open key c.entries } in
    if is_same now e
    then (record c { order = key ∷ erase_order key c.order }, ok e.file)
    else open_new stale key now opened

-- FdCache::get. `now` is the device and the inode that stat says the path has, and `opened` what
-- open gives.
unfoldable pub get :
    (ℕ → Bytes) → FdCache → Bytes → ℕ → Option (ℕ × ℕ) → Result ℕ → FdCache × Result ℕ
get shown c path flags now opened =
    let key = shown flags ++ (0x3a ∷ path) in get_found c key now opened (find_key key c.entries)

-- std::string::ends_with, behind the test on the sizes.
abbrev pub ends_in : Bytes → Bytes → Bool
ends_in tail key =
    ltb (length tail) (length key) && same_name (drop (length key - length tail) key) tail

-- The loop of forget, over the entries.
unfoldable pub forget_keys : Bytes → List (Bytes × Entry) → FdCache → FdCache
forget_keys tail [] c = c
forget_keys tail ((k, e) ∷ rest) c =
    let later = forget_keys tail rest in
    if ends_in tail k
    then later (record c { order = erase_order k c.order; entries = erase_open k c.entries })
    else later c

-- FdCache::forget
unfoldable pub forget_path : FdCache → Bytes → FdCache
forget_path c path = forget_keys (0x3a ∷ path) c.entries c
