-- ===== src/Tests/Descriptors.antt =====
-- A cache of two descriptors.
use rail.Prelude.{ℕ, ◌+◌, ◌≡◌, refl, some, [], ◌∷◌, arith}
use rail.Result.{ok}
use rail.Proto.Bytes.{Bytes}
use rail.Fuse.Inodes.{same_name}
use rail.FdCache.{
  FdCache, find_key, evict_oldest, open_new, get_found, get, forget_keys, forget_path,
}
use rail.FdCache.Bounded.{IsKept}
use rail.FdCache.Runs.{got, forgot, start, call, Reach-IsKept}
use rail.FdCache.Current.{get-current}

abbrev digit : ℕ → Bytes
digit flags = (0x30 + flags) ∷ []

abbrev none_open : FdCache
none_open = record { limit = 2; order = []; entries = [] }

abbrev step_a : FdCache
step_a = (get digit none_open (0x61 ∷ []) 0 (some (1, 10)) (ok 5)).0

abbrev step_b : FdCache
step_b = (get digit step_a (0x62 ∷ []) 0 (some (1, 11)) (ok 6)).0

abbrev step_c : FdCache
step_c = (get digit step_b (0x63 ∷ []) 0 (some (1, 12)) (ok 7)).0

oldest_evicted : step_c.order ≡ (0x30 ∷ 0x3a ∷ 0x63 ∷ []) ∷ (0x30 ∷ 0x3a ∷ 0x62 ∷ []) ∷ []
unfolding get get_found open_new evict_oldest same_name
oldest_evicted = refl

forgotten_order : (forget_path step_c (0x62 ∷ [])).order ≡ (0x30 ∷ 0x3a ∷ 0x63 ∷ []) ∷ []
unfolding get get_found open_new evict_oldest same_name forget_path forget_keys
forgotten_order = refl

replaced_opened : (get digit step_a (0x61 ∷ []) 0 (some (1, 20)) (ok 8)).1 ≡ ok 8
unfolding get get_found open_new evict_oldest same_name
replaced_opened = refl

Reach-IsKept_example : IsKept (forget_path step_c (0x62 ∷ []))
Reach-IsKept_example = Reach-IsKept digit 2 (omega arith) (
    call
      (call
        (call (call start (got (0x61 ∷ []) 0 (some (1, 10)) (ok 5)))
          (got (0x62 ∷ []) 0 (some (1, 11)) (ok 6)))
        (got (0x63 ∷ []) 0 (some (1, 12)) (ok 7)))
      (forgot (0x62 ∷ [])))

get-current_example :
    find_key
      (0x30 ∷ 0x3a ∷ 0x61 ∷ [])
      (get digit step_a (0x61 ∷ []) 0 (some (1, 20)) (ok 8)).0.entries
    ≡ some (record { file = 8; device = 1; inode = 20 })
get-current_example = get-current digit step_a (0x61 ∷ []) 0 1 20 8 (ok 8) replaced_opened
