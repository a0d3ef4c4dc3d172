-- ===== src/AddressSpace/Claimed.antt =====
-- What claim gives, and that it keeps or gives back every run that it takes.
use rail.Prelude.{
  ℕ, suc, ◌+◌, ◌*◌, ◌≤◌, ◌<◌, ◌≡◌, ◌⊎◌, Option, none, some, List, [], ◌∷◌, length, get_or,
  get_elem?,
}
use rail.AddressSpace.{View, registered_page, heap_page, empty_page, AddressSpace}

-- What Memory promises of its runs, of which `outs` are out: one that alloc hands out is as long as
-- asked, and one that is given back is out no more.
pub record IsLender {ℓ κ} {M : Type κ} {R : Type ℓ} (alloc : M → ℕ → M × Option R)
    (give_back : M → R → M) (run_bytes : R → ℕ) (outs : M → ℕ) : Type (ℓ ⊔ κ) where
  pub hands_out :
      (m m' : M) (bytes : ℕ) (run : R)
      → alloc m bytes ≡ (m', some run)
      → (outs m' ≡ suc (outs m)) × (bytes ≤ run_bytes run)
  pub refuses : (m m' : M) (bytes : ℕ) → alloc m bytes ≡ (m', none) → outs m' ≡ outs m
  pub takes_back : (m : M) (run : R) → 0 < outs m → suc (outs (give_back m run)) ≡ outs m

module _ {ℓ} {R : Type ℓ} where
  -- Page i is the first bytes of the i-th run.
  pub record OfRun (run_bytes : R → ℕ) (bytes : ℕ) (runs : List R) (views : List (View R)) (i : ℕ)
      : Type ℓ where
    pub run : R
    pub is : get_or views i empty_page ≡ registered_page run 0 bytes
    pub ith : get_elem? runs i ≡ some run
    pub fits : bytes ≤ run_bytes run

  -- Page i is the i-th stretch of the heap, and lies in it.
  pub record OfHeap (bytes heap : ℕ) (views : List (View R)) (i : ℕ) : Type ℓ where
    pub is : get_or views i empty_page ≡ heap_page (i * bytes) bytes
    pub inside : i * bytes + bytes ≤ heap

  -- All pages are of runs, each of its own, or all are of the heap.
  pub record HasPages (run_bytes : R → ℕ) (bytes count : ℕ) (s : AddressSpace R) : Type ℓ where
    pub many : length s.views ≡ count
    pub long : s.page_bytes ≡ bytes
    pub pages :
        ((length s.held ≡ count) × ((i : ℕ) → i < count → OfRun run_bytes bytes s.held s.views i))
        ⊎ ((s.held ≡ []) × ((i : ℕ) → i < count → OfHeap bytes s.heap s.views i))

  -- Every run is as long as asked.
  abbrev AllLong : (R → ℕ) → ℕ → List R → Type 0
  AllLong run_bytes bytes [] = Unit
  AllLong run_bytes bytes (run ∷ runs) = (bytes ≤ run_bytes run) × AllLong run_bytes bytes runs

module _ {ℓ κ} {M : Type κ} {R : Type ℓ} (alloc : M → ℕ → M × Option R) (give_back : M → R → M)
    (run_bytes : R → ℕ) (outs : M → ℕ) (law : IsLender alloc give_back run_bytes outs) where
  -- So many runs are out more than at first, and they are what was taken.
  abbrev IsTaken : ℕ → ℕ → ℕ → M × Option (List R) → Type 0
  IsTaken bytes n before (m, none) = outs m ≡ before
  IsTaken bytes n before (m, some runs) =
      (length runs ≡ n) × (outs m ≡ before + n) × AllLong run_bytes bytes runs
