-- ===== src/AddressSpace.antt =====
-- src/address-space.cc and include/rail/address-space.h: pages that stand for a stretch of offsets.
-- Memory, which hands out registered runs, is a parameter: what it does for alloc, and for a run
-- that is given back when the run's owner drops it.
pub mod Mapped
pub mod Claimed
use rail.Prelude.{
  ℕ, zero, suc, ◌+◌, ◌-◌, ◌*◌, ◌/◌, ◌%◌, Bool, ◌&&◌, ◌||◌, not, Option, none, some, List, [], ◌∷◌,
  ◌++◌, length, leb, ltb, ◌==◌, min, if◌then◌else◌,
}

-- A Page: a stretch of a run or of the heap, by the byte where it starts and its length, or the
-- empty Page.
pub data View {ℓ} (R : Type ℓ) : Type ℓ where
  registered_page : R → (offset length : ℕ) → View R
  heap_page : (from length : ℕ) → View R
  empty_page : View R

-- Held, Heap by its length, Views, PageBytes and Base
pub record AddressSpace {ℓ} (R : Type ℓ) : Type ℓ where
  pub held : List R
  pub heap : ℕ
  pub views : List (View R)
  pub page_bytes : ℕ
  pub base : ℕ

-- Where is the index of the page.
pub record Mapping : Type 0 where
  pub page : ℕ
  pub offset : ℕ
  pub length : ℕ

module _ {ℓ} {R : Type ℓ} where
  -- Run::borrow of a valid run, whose size() is `run_bytes` of it.
  unfoldable pub borrow : (R → ℕ) → R → ℕ → ℕ → View R
  borrow run_bytes run offset bytes =
      if ltb (run_bytes run) offset || ltb (run_bytes run - offset) bytes
      then empty_page
      else registered_page run offset bytes

  unfoldable pub of_runs : (R → ℕ) → ℕ → List R → List (View R)
  of_runs run_bytes bytes [] = []
  of_runs run_bytes bytes (run ∷ runs) = borrow run_bytes run 0 bytes ∷ of_runs run_bytes bytes runs

  -- The heap's pages, from the byte on.
  unfoldable pub of_heap : ℕ → ℕ → ℕ → List (View R)
  of_heap bytes zero from = []
  of_heap bytes (suc count) from = heap_page from bytes ∷ of_heap bytes count (from + bytes)

  -- The space on the runs, where all were valid, and on the heap otherwise.
  unfoldable pub with_pages : (R → ℕ) → ℕ → ℕ → ℕ → Option (List R) → AddressSpace R
  with_pages run_bytes base bytes count (some runs) = record {
    held = runs;
    heap = 0;
    views = of_runs run_bytes bytes runs;
    page_bytes = bytes;
    base = base;
  }
  with_pages run_bytes base bytes count none = record {
    held = [];
    heap = bytes * count;
    views = of_heap bytes count 0;
    page_bytes = bytes;
    base = base;
  }

module _ {ℓ κ} {M : Type κ} {R : Type ℓ} where
  unfoldable pub give_all_back : (M → R → M) → M → List R → M
  give_all_back give_back memory [] = memory
  give_all_back give_back memory (run ∷ runs) = give_all_back give_back (give_back memory run) runs

  -- What follows one alloc: the rest of the loop, or an end where the run is not valid.
  unfoldable pub took :
      (M → R → M) → (List R → M → M × Option (List R)) → List R → M × Option R → M × Option (List R)
  took give_back go taken (memory, none) = (give_all_back give_back memory taken, none)
  took give_back go taken (memory, some run) = go (taken ++ (run ∷ [])) memory

  -- The loop of claim over From.alloc, with what is taken.
  unfoldable pub take_runs :
      (M → ℕ → M × Option R) → (M → R → M) → ℕ → ℕ → List R → M → M × Option (List R)
  take_runs alloc give_back bytes zero taken memory = (memory, some taken)
  take_runs alloc give_back bytes (suc count) taken memory =
      took give_back (take_runs alloc give_back bytes count) taken (alloc memory bytes)

  unfoldable pub release : (M → R → M) → AddressSpace R → M → M × AddressSpace R
  release give_back s memory = (
    give_all_back give_back memory s.held,
    record { held = []; heap = 0; views = []; page_bytes = 0; base = s.base },
  )

  unfoldable pub claim :
      (M → ℕ → M × Option R)
      → (M → R → M)
      → (R → ℕ)
      → AddressSpace R
      → M
      → ℕ
      → ℕ
      → M × AddressSpace R
  claim alloc give_back run_bytes s memory bytes count =
      let (memory', empty) = release give_back s memory in
      let (memory'', taken) = take_runs alloc give_back bytes count [] memory' in
      if (bytes == 0) || (count == 0)
      then (memory', empty)
      else (memory'', with_pages run_bytes s.base bytes count taken)

module _ {ℓ} {R : Type ℓ} where
  unfoldable pub rebase : AddressSpace R → ℕ → AddressSpace R
  rebase s start = record {
    held = s.held;
    heap = s.heap;
    views = s.views;
    page_bytes = s.page_bytes;
    base = start;
  }

  unfoldable pub capacity : AddressSpace R → ℕ
  capacity s = length s.views * s.page_bytes

  -- registered(): every page may be offered to the fabric.
  unfoldable pub registered : AddressSpace R → Bool
  registered s = (s.heap == 0) && not (length s.views == 0)

  -- at: none for the empty Mapping.
  unfoldable pub map_at : AddressSpace R → ℕ → ℕ → Option Mapping
  map_at s offset n =
      let into = offset - s.base in
      let within = into % s.page_bytes in
      if (length s.views == 0) || ltb offset s.base
      then none
      else if leb (length s.views) (into / s.page_bytes)
      then none
      else some (record {
        page = into / s.page_bytes;
        offset = within;
        length = min n (s.page_bytes - within);
      })
