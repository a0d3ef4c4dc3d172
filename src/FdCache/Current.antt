-- ===== src/FdCache/Current.antt =====
-- A descriptor that the cache gives is that of the file that the path names.
use rail.Prelude.{ℕ, ◌≡◌, refl, ap, ◌∙◌, Bool-cases, inl, inr, Option, none, some, ◌∷◌, ◌++◌, arith}
use rail.Result.{Result, ok, err}
use rail.Proto.Bytes.{Bytes}
use rail.Fuse.Inodes.Names.{same_name_refl}
use rail.FdCache.{Entry, FdCache, find_key, is_same, open_new, get_found, get}

ok-injective : {a b : ℕ} → ok a ≡ ok b → a ≡ b
ok-injective {a} e = ap (λ r. elim r [ ok n ↦ n | err x ↦ a ]) e

open_new-current :
    (c : FdCache) (k : Bytes) (opened : Result ℕ) (fd device inode : ℕ)
    → (open_new c k (some (device, inode)) opened).1 ≡ ok fd
    → find_key k (open_new c k (some (device, inode)) opened).0.entries
      ≡ some (record { file = fd; device = device; inode = inode })
unfolding open_new
open_new-current c k (err e) fd device inode done = absurd (ground (arith, done))
open_new-current c k (ok n) fd device inode done =
    rw (same_name_refl k)
      (ap (λ f. some (record { file = f; device = device; inode = inode })) (ok-injective done))

get_found-current :
    (c : FdCache) (k : Bytes) (opened : Result ℕ) (found : Option Entry) (fd device inode : ℕ)
    → find_key k c.entries ≡ found
    → (get_found c k (some (device, inode)) opened found).1 ≡ ok fd
    → find_key k (get_found c k (some (device, inode)) opened found).0.entries
      ≡ some (record { file = fd; device = device; inode = inode })
unfolding get_found
get_found-current c k opened none fd device inode e done =
    open_new-current c k opened fd device inode done
get_found-current c k opened (some entry) fd device inode e done =
    elim (Bool-cases (is_same (some (device, inode)) entry)) [
      | inr changed ↦ rw changed (open_new-current _ k opened fd device inode (rw changed at done))
      | inl same ↦
          let file : entry.file ≡ fd = ok-injective (rw same at done) in
          let on : entry.device ≡ device = ground (arith, same) in
          let at_inode : entry.inode ≡ inode = ground (arith, same) in
          rw same (e ∙ rw (← file, ← on, ← at_inode) refl)
    ]

-- Where stat finds the path, a descriptor that get gives is kept under the path and the flags as
-- that of the file with the device and the inode that stat says, also where another file was kept
-- there before.
pub get-current :
    (shown : ℕ → Bytes) (c : FdCache) (path : Bytes) (flags device inode fd : ℕ) (opened : Result ℕ)
    → (get shown c path flags (some (device, inode)) opened).1 ≡ ok fd
    → find_key
        (shown flags ++ (0x3a ∷ path))
        (get shown c path flags (some (device, inode)) opened).0.entries
      ≡ some (record { file = fd; device = device; inode = inode })
unfolding get
get-current shown c path flags device inode fd opened done =
    let key = shown flags ++ (0x3a ∷ path) in
    get_found-current c key opened (find_key key c.entries) fd device inode refl done
