-- ===== src/FdCache/Runs.antt =====
-- Every call of the cache keeps its order and its entries in step, and to the limit.
use rail.Prelude.{
  ℕ, suc, ◌<◌, ◌≡◌, refl, ap, ◌∙◌, subst, Bool-cases, inl, inr, Option, none, some, List, [], ◌∷◌,
  ◌++◌, length, leb, arith,
}
use rail.Result.{Result, ok, err}
use rail.Proto.Bytes.{Bytes}
use rail.Fuse.Inodes.{same_name}
use rail.FdCache.{
  Entry, FdCache, find_key, erase_order, erase_open, last_of, evict_oldest, is_same, open_new,
  get_found, get, ends_in, forget_keys, forget_path,
}
use rail.FdCache.Bounded.{
  keys, occurs, keys-erase_open, length-keys, occurs-erase_same, IsMatched, IsKept, erase-IsMatched,
  push-IsMatched, front-IsMatched, evict-IsMatched, length-erase_order_le, occurs-erase_none,
}

find_key-none :
    (k : Bytes) (entries : List (Bytes × Entry))
    → find_key k entries ≡ none
    → occurs k (keys entries) ≡ 0
find_key-none k [] h = refl
find_key-none k ((j, e) ∷ rest) h = elim (Bool-cases (same_name j k)) [
  | inl same ↦ absurd (ground (arith, rw same at h))
  | inr apart ↦ rw apart (omega (arith, find_key-none k rest (rw apart at h)))
]

find_key-some :
    (k : Bytes) (e : Entry) (entries : List (Bytes × Entry))
    → find_key k entries ≡ some e
    → 0 < occurs k (keys entries)
find_key-some k e [] h = absurd (ground (arith, h))
find_key-some k e ((j, f) ∷ rest) h = elim (Bool-cases (same_name j k)) [
  | inl same ↦ rw same (omega arith)
  | inr apart ↦ rw apart (omega (arith, find_key-some k e rest (rw apart at h)))
]

erase-IsKept :
    (c : FdCache) (k : Bytes)
    → IsKept c
    → IsKept (record c { order = erase_order k c.order; entries = erase_open k c.entries })
erase-IsKept c k h = record {
  matched = rw (keys-erase_open k c.entries) (erase-IsMatched k c.order (keys c.entries) h.matched);
  bounded = omega (
    arith,
    h.bounded,
    ap length (keys-erase_open k c.entries),
    length-keys c.entries,
    length-keys (erase_open k c.entries),
    length-erase_order_le k (keys c.entries),
  );
}

evict_oldest-IsKept :
    (c : FdCache) (k : Bytes) (order : List Bytes)
    → IsKept c
    → 0 < length c.entries
    → c.order ≡ order
    → occurs k (keys c.entries) ≡ 0
    → IsKept (evict_oldest c order)
      × (length (evict_oldest c order).entries < c.limit)
      × (occurs k (keys (evict_oldest c order).entries) ≡ 0)
      × ((evict_oldest c order).limit ≡ c.limit)
unfolding evict_oldest
evict_oldest-IsKept c k [] h some_entry e absent =
    absurd (omega (arith, h.matched.sizes, ap length e, length-keys c.entries, some_entry))
evict_oldest-IsKept c k (j ∷ rest) h some_entry e absent =
    let last = last_of j rest in
    let (matched, shorter) =
      evict-IsMatched j rest (keys c.entries)
        (subst (λ o. IsMatched o (keys c.entries)) e h.matched) in
    let erased = keys-erase_open last c.entries in
    let fewer : suc (length (erase_open last c.entries)) ≡ length c.entries = omega (
      arith,
      shorter,
      length-keys (erase_open last c.entries),
      ap length erased,
      length-keys c.entries,
    ) in
    (
      record { matched = rw erased matched; bounded = omega (arith, fewer, h.bounded) },
      omega (arith, fewer, h.bounded),
      rw erased (occurs-erase_none k last (keys c.entries) absent),
      refl,
    )

open_new-IsKept :
    (c : FdCache) (k : Bytes) (now : Option (ℕ × ℕ)) (opened : Result ℕ)
    → IsKept c
    → 0 < c.limit
    → occurs k (keys c.entries) ≡ 0
    → IsKept ((open_new c k now opened).0) × ((open_new c k now opened).0.limit ≡ c.limit)
unfolding open_new
open_new-IsKept c k now (err e) h pos absent = (h, refl)
open_new-IsKept c k now (ok fd) h pos absent = elim (Bool-cases (leb c.limit (length c.entries))) [
  | inr room ↦ rw room (
    record {
      matched = push-IsMatched k c.order (keys c.entries) h.matched absent;
      bounded = ground (arith, room);
    },
    refl,
  )
  | inl full ↦
      let (kept, below, away, same) =
        evict_oldest-IsKept c k c.order h (ground (arith, full, pos)) refl absent in
      rw full (
        record {
          matched =
              push-IsMatched k (evict_oldest c c.order).order
                (keys (evict_oldest c c.order).entries) kept.matched away;
          bounded = omega (arith, below, same);
        },
        same,
      )
]

get_found-IsKept :
    (c : FdCache) (k : Bytes) (now : Option (ℕ × ℕ)) (opened : Result ℕ) (found : Option Entry)
    → IsKept c
    → 0 < c.limit
    → find_key k c.entries ≡ found
    → IsKept ((get_found c k now opened found).0)
      × ((get_found c k now opened found).0.limit ≡ c.limit)
unfolding get_found
get_found-IsKept c k now opened none h pos e =
    open_new-IsKept c k now opened h pos (find_key-none k c.entries e)
get_found-IsKept c k now opened (some entry) h pos e = elim (Bool-cases (is_same now entry)) [
  | inl same ↦ rw same (
    record {
      matched =
          front-IsMatched k c.order (keys c.entries) h.matched (find_key-some k entry c.entries e);
      bounded = h.bounded;
    },
    refl,
  )
  | inr changed ↦
      let stale : FdCache = record c {
        order = erase_order k c.order;
        entries = erase_open k c.entries;
      } in
      let gone : occurs k (keys (erase_open k c.entries)) ≡ 0 =
        ap (occurs k) (keys-erase_open k c.entries)
        ∙ occurs-erase_same k (keys c.entries)
        ∙ omega (arith, h.matched.once k) in
      rw changed (open_new-IsKept stale k now opened (erase-IsKept c k h) pos gone)
]

forget_keys-IsKept :
    (tail : Bytes) (entries : List (Bytes × Entry)) (c : FdCache)
    → IsKept c
    → IsKept (forget_keys tail entries c) × ((forget_keys tail entries c).limit ≡ c.limit)
unfolding forget_keys
forget_keys-IsKept tail [] c h = (h, refl)
forget_keys-IsKept tail ((k, e) ∷ rest) c h = elim (Bool-cases (ends_in tail k)) [
  | inr other ↦ rw other (forget_keys-IsKept tail rest c h)
  | inl gone ↦
      let erased : FdCache = record c {
        order = erase_order k c.order;
        entries = erase_open k c.entries;
      } in
      rw gone (forget_keys-IsKept tail rest erased (erase-IsKept c k h))
]

-- One call of the cache.
pub data Used (shown : ℕ → Bytes) (c : FdCache) : FdCache → Type 0 where
  got :
      (path : Bytes) (flags : ℕ) (now : Option (ℕ × ℕ)) (opened : Result ℕ)
      → Used shown c ((get shown c path flags now opened).0)
  forgot : (path : Bytes) → Used shown c (forget_path c path)

pub data Reach (shown : ℕ → Bytes) (limit : ℕ) : FdCache → Type 0 where
  start : Reach shown limit (record { limit = limit; order = []; entries = [] })
  call : {c d : FdCache} → Reach shown limit c → Used shown c d → Reach shown limit d

Used-IsKept :
    (shown : ℕ → Bytes) {c d : FdCache}
    → IsKept c
    → 0 < c.limit
    → Used shown c d
    → IsKept d × (d.limit ≡ c.limit)
unfolding get forget_path
Used-IsKept shown {c} h pos (got path flags now opened) =
    let key = shown flags ++ (0x3a ∷ path) in
    get_found-IsKept c key now opened (find_key key c.entries) h pos refl
Used-IsKept shown {c} h pos (forgot path) = forget_keys-IsKept (0x3a ∷ path) c.entries c h

Reach-limit :
    (shown : ℕ → Bytes) (limit : ℕ) {c : FdCache}
    → 0 < limit
    → Reach shown limit c
    → IsKept c × (c.limit ≡ limit)
Reach-limit shown limit pos start = (
  record {
    matched = record { same = λ k. refl; once = λ k. omega arith; sizes = refl };
    bounded = omega arith;
  },
  refl,
)
Reach-limit shown limit pos (call run used) =
    let (h, same) = Reach-limit shown limit pos run in
    let (kept, stays) = Used-IsKept shown h (omega (arith, pos, same)) used in (kept, stays ∙ same)

-- After any calls of get and forget, whatever the system says of files and of opening them, on an
-- empty cache whose limit is not zero: the order and the entries have the same keys, each once, and
-- there are no more than the limit.
pub Reach-IsKept :
    (shown : ℕ → Bytes) (limit : ℕ) {c : FdCache} → 0 < limit → Reach shown limit c → IsKept c
Reach-IsKept shown limit pos run = (Reach-limit shown limit pos run).0
