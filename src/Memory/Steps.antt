-- ===== src/Memory/Steps.antt =====
-- What the threads do to the memory, one critical section at a time, in any order.
use rail.Prelude.{
  ℕ, ◌+◌, ◌≤◌, ◌<◌, ◌≡◌, ◌≢◌, refl, ◌∙◌, true, false, Bool-cases, inl, inr, some, List, [], ◌∷◌,
  ◌++◌, length, set, ◌==◌, arith,
}
use rail.Memory.{
  MemoryRegion, Memory, MemoryStats, Run, State, no_region, take_locked, release, push_region,
}
use rail.Memory.Frames.{within}
use rail.Memory.Taking.{get_or-set_same, get_or-set_other}
use rail.Memory.Owned.{region_at, covers, bit, holders, IsHeld, IsAccounted}

pub data Step : State → State → Type 0 where
  take :
      {m m' : Memory} {out : List Run} {run : Run} (frames : ℕ)
      → 0 < frames
      → take_locked m frames ≡ (m', some run)
      → Step (record { memory = m; out = out }) (record { memory = m'; out = run ∷ out })
  give :
      {m : Memory} (front : List Run) (run : Run) (back : List Run)
      → Step
          (record { memory = m; out = front ++ (run ∷ back) })
          (record { memory = release m run; out = front ++ back })
  grow :
      {m : Memory} {out : List Run}
      → length m.regions < m.region_ceiling
      → Step (record { memory = m; out = out }) (record { memory = push_region m; out = out })
  count :
      {m : Memory} {out : List Run} (stats : MemoryStats)
      → Step
          (record { memory = m; out = out })
          (record { memory = record m { stats = stats }; out = out })

pub data Steps (s : State) : State → Type 0 where
  here : Steps s s
  more : {t u : State} → Steps s t → Step t u → Steps s u

pub record IsSound (s : State) : Type 0 where
  pub accounted : IsAccounted s.memory.regions s.out
  pub bounded : length s.memory.regions ≤ s.memory.region_ceiling

pub IsHeld-ext :
    (r : MemoryRegion) (n n' : ℕ → ℕ) → ((i : ℕ) → n' i ≡ n i) → IsHeld r n → IsHeld r n'
IsHeld-ext r n n' same h = record {
  used = h.used;
  held = λ i below. same i ∙ h.held i below;
  past = λ i above. same i ∙ h.past i above;
}

-- One region is replaced, and the runs in the others stay.
pub set-IsAccounted :
    (regions : List MemoryRegion) (out out' : List Run) (home : ℕ) (r : MemoryRegion)
    → IsAccounted regions out
    → home < length regions
    → IsHeld r (holders out' home)
    → ((h i : ℕ) → home ≢ h → holders out' h i ≡ holders out h i)
    → IsAccounted (set regions home r) out'
set-IsAccounted regions out out' home r ok there new others h = elim (Bool-cases (home == h)) [
  | inl same ↦
      let is : home ≡ h = ground (arith, same) in
      rw (← is, get_or-set_same regions home r no_region there) new
  | inr differs ↦
      let apart : home ≢ h = λ e. absurd (ground (arith, differs, e)) in
      rw (get_or-set_other regions home h r no_region apart) (
        IsHeld-ext (region_at regions h) (holders out h) (holders out' h) (λ i. others h i apart)
          (ok h))
]

pub covers-same : (run : Run) (i : ℕ) → covers run run.home i ≡ within run.first run.frames i
covers-same run i = let same : (run.home == run.home) ≡ true = ground arith in rw same refl

pub covers-other : (run : Run) (h i : ℕ) → run.home ≢ h → covers run h i ≡ false
covers-other run h i apart =
    let differs : (run.home == h) ≡ false = elim (Bool-cases (run.home == h)) [
      | inl same ↦ absurd (apart (ground (arith, same)))
      | inr differs ↦ differs
    ] in
    rw differs refl

holders-append :
    (front back : List Run) (h i : ℕ)
    → holders (front ++ back) h i ≡ holders front h i + holders back h i
holders-append [] back h i = omega arith
holders-append (run ∷ front) back h i = omega (arith, holders-append front back h i)

pub holders-middle :
    (front : List Run) (run : Run) (back : List Run) (h i : ℕ)
    → holders (front ++ (run ∷ back)) h i ≡ bit (covers run h i) + holders (front ++ back) h i
holders-middle front run back h i =
    omega (arith, holders-append front (run ∷ back) h i, holders-append front back h i)
