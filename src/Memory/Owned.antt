-- ===== src/Memory/Owned.antt =====
-- Who holds which frame: each frame that is taken is held by one run, and each run's frames are
-- taken.
use rail.Prelude.{
  ℕ, ◌+◌, ◌-◌, ◌≤◌, ◌<◌, ◌≡◌, refl, sym, ap, ◌∙◌, Bool, true, false, ◌&&◌, Bool-cases, inl, inr,
  List, [], ◌∷◌, length, get_or, ltb, ◌==◌, if◌then◌else◌, arith,
}
use rail.Memory.{MemoryRegion, Run, no_region, mark, count_free, take_frames, give_frames}
use rail.Memory.Frames.{
  taken_at, within, taken_at-mark, length-mark, count_free-mark-true, count_free-mark-false,
  count_free-le, count_free-mark_none,
}
use rail.Memory.Taking.{HasRoom}

abbrev pub region_at : List MemoryRegion → ℕ → MemoryRegion
region_at regions h = get_or regions h no_region

abbrev pub covers : Run → ℕ → ℕ → Bool
covers run h i = (run.home == h) && within run.first run.frames i

abbrev pub bit : Bool → ℕ
bit b = if b then 1 else 0

-- How many of the runs hold the frame.
abbrev pub holders : List Run → ℕ → ℕ → ℕ
holders [] h i = 0
holders (run ∷ out) h i = bit (covers run h i) + holders out h i

-- A region of whose frames so many runs hold each: one holds a frame that is taken, and none
-- another.
pub record IsHeld (r : MemoryRegion) (n : ℕ → ℕ) : Type 0 where
  pub used : r.used + count_free r.taken ≡ length r.taken
  pub held : (i : ℕ) → i < length r.taken → n i ≡ bit (taken_at r.taken i)
  pub past : (i : ℕ) → length r.taken ≤ i → n i ≡ 0

-- The runs that are out, against the regions.
abbrev pub IsAccounted : List MemoryRegion → List Run → Type 0
IsAccounted regions out = (h : ℕ) → IsHeld (region_at regions h) (holders out h)

pub take_frames-IsHeld :
    (r : MemoryRegion) (n : ℕ → ℕ) (first frames : ℕ)
    → IsHeld r n
    → HasRoom r first frames
    → IsHeld (take_frames r first frames) (λ i. bit (within first frames i) + n i)
unfolding take_frames
take_frames-IsHeld r n first frames ok room = record {
  used = omega (
    arith,
    ok.used,
    count_free-mark-true r.taken first frames room.free,
    length-mark r.taken first frames true,
  );
  held = held;
  past = past;
}
  where
    long : length (mark r.taken first frames true) ≡ length r.taken
    long = length-mark r.taken first frames true

    held :
        (i : ℕ)
        → i < length (mark r.taken first frames true)
        → bit (within first frames i) + n i ≡ bit (taken_at (mark r.taken first frames true) i)
    held i h = elim (Bool-cases (within first frames i)) [
      | inl mine ↦
          let was : taken_at r.taken i ≡ false =
            room.free i (ground (arith, mine)) (ground (arith, mine)) in
          let none_held : n i ≡ 0 = ok.held i (omega (arith, long)) ∙ ap bit was in
          rw (taken_at-mark r.taken first frames i true (omega (arith, long)), mine, none_held) refl
      | inr other ↦
          rw (taken_at-mark r.taken first frames i true (omega (arith, long)), other)
            (omega (arith, ok.held i (omega (arith, long))))
    ]

    past :
        (i : ℕ)
        → length (mark r.taken first frames true) ≤ i
        → bit (within first frames i) + n i ≡ 0
    past i h =
        let outside : within first frames i ≡ false = ground (arith, room.inside, long) in
        rw outside (omega (arith, ok.past i (omega (arith, long))))

pub give_frames-IsHeld :
    (r : MemoryRegion) (n : ℕ → ℕ) (first frames : ℕ)
    → IsHeld r (λ i. bit (within first frames i) + n i)
    → IsHeld (give_frames r first frames) n
unfolding give_frames
give_frames-IsHeld r n first frames ok = record {
  used = used;
  held = held;
  past = λ i h. omega (arith, ok.past i (omega (arith, long)));
}
  where
    long : length (mark r.taken first frames false) ≡ length r.taken
    long = length-mark r.taken first frames false

    -- A frame of the run is taken, and no other run holds it.
    mine :
        (i : ℕ)
        → within first frames i ≡ true
        → (taken_at r.taken i ≡ true) × (n i ≡ 0) × (i < length r.taken)
    mine i inside = elim (Bool-cases (ltb i (length r.taken))) [
      | inr past ↦
          absurd
            (omega (arith, sym (ap (λ b. bit b + n i) inside) ∙ ok.past i (ground (arith, past))))
      | inl there ↦
          let one : 1 + n i ≡ bit (taken_at r.taken i) =
            sym (ap (λ b. bit b + n i) inside) ∙ ok.held i (ground (arith, there)) in
          elim (Bool-cases (taken_at r.taken i)) [
            | inl taken ↦ (taken, omega (arith, one ∙ ap bit taken), ground (arith, there))
            | inr free ↦ absurd (omega (arith, one ∙ ap bit free))
          ]
    ]

    more : count_free (mark r.taken first frames false) ≡ count_free r.taken + frames
    more = elim (Bool-cases (ltb 0 frames)) [
      | inr no_frames ↦
          let zero_frames : frames ≡ 0 = ground (arith, no_frames) in
          rw zero_frames (count_free-mark_none r.taken first false ∙ omega arith)
      | inl some_frames ↦
          let last = mine (first + frames - 1) (ground (arith, some_frames)) in
          count_free-mark-false r.taken first frames (ground (arith, some_frames, last.2))
            (λ i low high. (mine i (ground arith)).0)
    ]

    used :
        r.used - frames + count_free (mark r.taken first frames false)
        ≡ length (mark r.taken first frames false)
    used = omega (arith, long, more, ok.used, count_free-le (mark r.taken first frames false))

    held :
        (i : ℕ)
        → i < length (mark r.taken first frames false)
        → n i ≡ bit (taken_at (mark r.taken first frames false) i)
    held i h = elim (Bool-cases (within first frames i)) [
      | inl inside ↦
          rw (taken_at-mark r.taken first frames i false (omega (arith, long)), inside)
            ((mine i inside).1)
      | inr other ↦
          let same : n i ≡ bit (taken_at r.taken i) =
            omega (arith, sym (ap (λ b. bit b + n i) other) ∙ ok.held i (omega (arith, long))) in
          rw (taken_at-mark r.taken first frames i false (omega (arith, long)), other) same
    ]
