-- ===== src/Memory/Sound.antt =====
-- Every critical section keeps the account of frames, and so does every sequence of them.
use rail.Prelude.{
  ℕ, zero, suc, ◌+◌, ◌/◌, ◌≤◌, ◌<◌, ◌≡◌, refl, sym, ap, ◌∙◌, Bool, false, Bool-cases, Option-cases,
  inl, inr, some, some-injective, List, [], ◌∷◌, ◌++◌, length, replicate, ltb, length-append,
  length-replicate, arith,
}
use rail.Memory.{
  MemoryRegion, Memory, Run, State, no_region, pick, take_frames, give_frames, take_at, take_locked,
  release, fresh_region, push_region, count_free,
}
use rail.Memory.Frames.{within, taken_at}
use rail.Memory.Taking.{HasRoom, pick-HasRoom, length-set, set_past, get_or_past}
use rail.Memory.Owned.{
  region_at, covers, bit, holders, IsHeld, IsAccounted, take_frames-IsHeld, give_frames-IsHeld,
}
use rail.Memory.Steps.{
  Step, take, give, grow, count, Steps, here, more, IsSound, IsHeld-ext, set-IsAccounted,
  covers-same, covers-other, holders-middle,
}

-- A run that is picked is taken soundly.
taken-IsSound :
    (m : Memory) (out : List Run) (home first frames : ℕ)
    → IsSound (record { memory = m; out = out })
    → home < length m.regions
    → HasRoom (region_at m.regions home) first frames
    → IsSound (record {
      memory = (take_at m frames (some (home, first))).0;
      out = record { home = home; first = first; frames = frames } ∷ out;
    })
unfolding take_at
taken-IsSound m out home first frames sound there room =
    let run : Run = record { home = home; first = first; frames = frames } in
    let old = region_at m.regions home in
    record {
      accounted =
          set-IsAccounted m.regions out (run ∷ out) home (take_frames old first frames)
            sound.accounted there
            (IsHeld-ext (take_frames old first frames)
              (λ i. bit (within first frames i) + holders out home i) (holders (run ∷ out) home)
              (λ i. ap (λ b. bit b + holders out home i) (covers-same run i))
              (take_frames-IsHeld old (holders out home) first frames (sound.accounted home) room))
            (λ h i apart.
              ap (λ b. bit b + holders out h i) (covers-other run h i apart) ∙ omega arith);
      bounded =
          omega (arith, sound.bounded, length-set m.regions home (take_frames old first frames));
    }

take_locked-IsSound :
    (m m' : Memory) (out : List Run) (run : Run) (frames : ℕ)
    → 0 < frames
    → IsSound (record { memory = m; out = out })
    → take_locked m frames ≡ (m', some run)
    → IsSound (record { memory = m'; out = run ∷ out })
unfolding take_locked take_at
take_locked-IsSound m m' out run frames pos sound h =
    elim (Option-cases (pick frames 0 m.regions)) [
      | inl none_found ↦ absurd (ground (arith, ap (λ p. p.1) (rw none_found at h)))
      | inr ((home, first), found) ↦
          let (j, at, below, room) = pick-HasRoom frames 0 home first m.regions pos found in
          let is : j ≡ home = omega arith in
          let taken = taken-IsSound m out home first frames sound (omega arith) (rw is at room) in
          let same = rw found at h in
          let memory_same = ap (λ p. p.0) same in
          let run_same = some-injective _ _ (ap (λ p. p.1) same) in
          rw (← memory_same, ← run_same) taken
    ]

-- What is given back, in whatever order the runs went out.
release-IsSound :
    (m : Memory) (front : List Run) (run : Run) (back : List Run)
    → IsSound (record { memory = m; out = front ++ (run ∷ back) })
    → IsSound (record { memory = release m run; out = front ++ back })
unfolding release
release-IsSound m front run back sound = elim (Bool-cases (ltb run.home (length m.regions))) [
  | inl there ↦ record {
    accounted =
        set-IsAccounted m.regions (front ++ (run ∷ back)) (front ++ back) run.home
          (give_frames old run.first run.frames) sound.accounted (ground (arith, there))
          (give_frames-IsHeld old (holders (front ++ back) run.home) run.first run.frames (
            IsHeld-ext old (holders (front ++ (run ∷ back)) run.home) _
              (λ i. sym (
                holders-middle front run back run.home i
                ∙ ap (λ b. bit b + holders (front ++ back) run.home i) (covers-same run i)))
              (sound.accounted run.home)))
          (λ h i apart. sym (others h i (covers-other run h i apart)));
    bounded = omega (
      arith,
      sound.bounded,
      length-set m.regions run.home (give_frames old run.first run.frames),
    );
  }
  | inr past ↦
      let unchanged =
        set_past m.regions run.home (give_frames old run.first run.frames) (ground (arith, past)) in
      rw unchanged (record {
        accounted = λ h.
            IsHeld-ext (region_at m.regions h) (holders (front ++ (run ∷ back)) h)
              (holders (front ++ back) h) (λ i. sym (others h i (nowhere past h i)))
              (sound.accounted h);
        bounded = sound.bounded;
      })
]
  where
    old : MemoryRegion
    old = region_at m.regions run.home

    others :
        (h i : ℕ)
        → covers run h i ≡ false
        → holders (front ++ (run ∷ back)) h i ≡ holders (front ++ back) h i
    others h i away =
        holders-middle front run back h i
        ∙ ap (λ b. bit b + holders (front ++ back) h i) away
        ∙ omega arith

    -- A run of a region that is not there would hold a frame that is not there.
    nowhere : ltb run.home (length m.regions) ≡ false → (h i : ℕ) → covers run h i ≡ false
    nowhere past h i = elim (Bool-cases (covers run h i)) [
      | inr away ↦ away
      | inl mine ↦
          let gone : region_at m.regions h ≡ no_region =
            get_or_past m.regions h no_region (ground (arith, past, mine)) in
          let none_held : holders (front ++ (run ∷ back)) h i ≡ 0 =
            (sound.accounted h).past i (rw gone (omega arith)) in
          absurd (omega (arith, none_held, holders-middle front run back h i, ap bit mine))
    ]

region_at-push_old :
    (regions : List MemoryRegion) (r : MemoryRegion) (h : ℕ)
    → h < length regions
    → region_at (regions ++ (r ∷ [])) h ≡ region_at regions h
region_at-push_old [] r h below = absurd (omega arith)
region_at-push_old (x ∷ regions) r zero below = refl
region_at-push_old (x ∷ regions) r (suc h) below = region_at-push_old regions r h (omega arith)

region_at-push_new :
    (regions : List MemoryRegion) (r : MemoryRegion)
    → region_at (regions ++ (r ∷ [])) (length regions) ≡ r
region_at-push_new [] r = refl
region_at-push_new (x ∷ regions) r = region_at-push_new regions r

count_free-replicate : (n : ℕ) → count_free (replicate n false) ≡ n
unfolding count_free
count_free-replicate zero = refl
count_free-replicate (suc n) = omega (arith, count_free-replicate n)

taken_at-replicate : (n i : ℕ) → i < n → taken_at (replicate n false) i ≡ false
taken_at-replicate zero i h = absurd (omega arith)
taken_at-replicate (suc n) zero h = refl
taken_at-replicate (suc n) (suc i) h = taken_at-replicate n i (omega arith)

-- A region of its own has no run in it.
fresh-IsHeld :
    (len : ℕ) (n : ℕ → ℕ)
    → ((i : ℕ) → n i ≡ 0)
    → IsHeld (record { taken = replicate len false; used = 0 }) n
fresh-IsHeld len n unheld = record {
  used = omega (arith, count_free-replicate len, length-replicate {A = Bool} len false);
  held = λ i h.
      unheld i
      ∙ ap bit
          (sym (taken_at-replicate len i (omega (arith, length-replicate {A = Bool} len false))));
  past = λ i h. unheld i;
}

push_region-IsSound :
    (m : Memory) (out : List Run)
    → IsSound (record { memory = m; out = out })
    → length m.regions < m.region_ceiling
    → IsSound (record { memory = push_region m; out = out })
unfolding push_region fresh_region
push_region-IsSound m out sound room = record {
  accounted = accounted;
  bounded = omega (arith, length-append m.regions (fresh_region m ∷ []));
}
  where
    unheld : (h i : ℕ) → length m.regions ≤ h → holders out h i ≡ 0
    unheld h i past =
        (sound.accounted h).past i (rw (get_or_past m.regions h no_region past) (omega arith))

    accounted : IsAccounted (m.regions ++ (fresh_region m ∷ [])) out
    accounted h = elim (Bool-cases (ltb h (length m.regions))) [
      | inl old ↦
          rw (region_at-push_old m.regions (fresh_region m) h (ground (arith, old)))
            (sound.accounted h)
      | inr not_old ↦ elim (Bool-cases (ltb (length m.regions) h)) [
        | inr new ↦
            let is : h ≡ length m.regions = ground (arith, not_old, new) in
            rw (is, region_at-push_new m.regions (fresh_region m))
              (fresh-IsHeld (m.region_bytes / m.frame_size) (holders out (length m.regions))
                (λ i. unheld (length m.regions) i (omega arith)))
        | inl past ↦
            let gone : region_at (m.regions ++ (fresh_region m ∷ [])) h ≡ no_region =
              get_or_past (m.regions ++ (fresh_region m ∷ [])) h no_region
                (ground (arith, past, length-append m.regions (fresh_region m ∷ []))) in
            rw gone (fresh-IsHeld 0 (holders out h) (λ i. unheld h i (ground (arith, past))))
      ]
    ]

pub Step-IsSound : {s t : State} → Step s t → IsSound s → IsSound t
Step-IsSound (take {m} {m'} {out} {run} frames pos taken) sound =
    take_locked-IsSound m m' out run frames pos sound taken
Step-IsSound (give {m} front run back) sound = release-IsSound m front run back sound
Step-IsSound (grow {m} {out} room) sound = push_region-IsSound m out sound room
Step-IsSound (count stats) sound = record { accounted = sound.accounted; bounded = sound.bounded }

pub Steps-IsSound : {s t : State} → Steps s t → IsSound s → IsSound t
Steps-IsSound here sound = sound
Steps-IsSound (more steps step) sound = Step-IsSound step (Steps-IsSound steps sound)

-- Whatever threads take, give back, grow and count, from a memory with no region on: no frame is
-- held by two runs, Used is the number of frames that are taken in every region, and there are no
-- more regions than the ceiling.
pub Steps-one_holder :
    (m : Memory) {s : State}
    → m.regions ≡ []
    → Steps (record { memory = m; out = [] }) s
    → ((h i : ℕ) → holders s.out h i ≤ 1)
      × ((h : ℕ)
          → (region_at s.memory.regions h).used + count_free (region_at s.memory.regions h).taken
            ≡ length (region_at s.memory.regions h).taken)
      × (length s.memory.regions ≤ s.memory.region_ceiling)
unfolding count_free
Steps-one_holder m {s} empty steps = (one, (λ h. (sound.accounted h).used), sound.bounded)
  where
    start : IsSound (record { memory = m; out = [] })
    start = record {
      accounted = λ h. rw empty (record {
        used = omega arith;
        held = λ i below. absurd (omega arith);
        past = λ i above. refl;
      });
      bounded = rw empty (omega arith);
    }

    sound : IsSound s
    sound = Steps-IsSound steps start

    one : (h i : ℕ) → holders s.out h i ≤ 1
    one h i = elim (Bool-cases (ltb i (length (region_at s.memory.regions h).taken))) [
      | inr past ↦ omega (arith, (sound.accounted h).past i (ground (arith, past)))
      | inl there ↦ elim (Bool-cases (taken_at (region_at s.memory.regions h).taken i)) [
        | inl taken ↦
            omega (arith, (sound.accounted h).held i (ground (arith, there)), ap bit taken)
        | inr free ↦ omega (arith, (sound.accounted h).held i (ground (arith, there)), ap bit free)
      ]
    ]
