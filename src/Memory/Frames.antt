-- ===== src/Memory/Frames.antt =====
-- The frames of one region: what the loop of takeLocked finds, and what marking changes.
use rail.Prelude.{
  ℕ, zero, suc, ◌+◌, ◌-◌, ◌≤◌, ◌<◌, ◌≡◌, refl, sym, ap, ◌∙◌, Bool, true, false, ◌&&◌, Bool-cases,
  inl, inr, some, List, [], ◌∷◌, length, get_or, ltb, leb, if◌then◌else◌, arith, some-injective,
}
use rail.Memory.{find_run, mark, count_free}

-- A frame that is there and free; one past the end counts as taken.
abbrev pub taken_at : List Bool → ℕ → Bool
taken_at frames i = get_or frames i true

abbrev pub within : ℕ → ℕ → ℕ → Bool
within first count i = leb first i && ltb i (first + count)

-- All frames from `first` on are free.
abbrev pub AllFree : List Bool → ℕ → ℕ → Type 0
AllFree frames first count = (i : ℕ) → first ≤ i → i < first + count → taken_at frames i ≡ false

pub free-inside : (frames : List Bool) (i : ℕ) → taken_at frames i ≡ false → i < length frames
free-inside [] i h = absurd (ground (arith, h))
free-inside (t ∷ frames) zero h = omega arith
free-inside (t ∷ frames) (suc i) h = omega (arith, free-inside frames i h)

shifted :
    (all : List Bool) (i : ℕ) (t : Bool) (rest : List Bool)
    → ((j : ℕ) → get_or (t ∷ rest) j true ≡ taken_at all (i + j))
    → (j : ℕ) → get_or rest j true ≡ taken_at all (i + 1 + j)
shifted all i t rest same j =
    let next : i + suc j ≡ i + 1 + j = omega arith in same (suc j) ∙ ap (taken_at all) next

-- The loop at frame `i`, with the frames behind it: the last `consecutive` before it are free.
pub find_run-AllFree :
    (all : List Bool) (frames i consecutive first : ℕ) (rest : List Bool)
    → 0 < frames
    → consecutive ≤ i
    → ((j : ℕ) → get_or rest j true ≡ taken_at all (i + j))
    → ((j : ℕ) → i ≤ j + consecutive → j < i → taken_at all j ≡ false)
    → find_run frames i consecutive rest ≡ some first
    → AllFree all first frames
unfolding find_run
find_run-AllFree all frames i c first [] pos le same free h = absurd (ground (arith, h))
find_run-AllFree all frames i c first (true ∷ rest) pos le same free h =
    let on : ltb 0 frames ≡ true = ground arith in
    find_run-AllFree all frames (i + 1) 0 first rest pos (omega arith)
      (shifted all i true rest same) (λ j low high. absurd (omega arith)) (rw on at h)
find_run-AllFree all frames i c first (false ∷ rest) pos le same free h =
    elim (Bool-cases (ltb (c + 1) frames)) [
      | inl on ↦
          find_run-AllFree all frames (i + 1) (c + 1) first rest pos (omega arith)
            (shifted all i false rest same) longer (rw on at h)
      | inr enough ↦
          let at : i + 1 - frames ≡ first =
            some-injective (i + 1 - frames) first (rw enough at h) in
          let reach : frames ≤ c + 1 = ground (arith, enough) in
          λ j low high. longer j (omega arith) (omega arith)
    ]
  where
    longer : (j : ℕ) → i + 1 ≤ j + (c + 1) → j < i + 1 → taken_at all j ≡ false
    longer j low high = elim (Bool-cases (ltb j i)) [
      | inl before ↦ free j (omega arith) (ground (arith, before))
      | inr here ↦ let is : j ≡ i + 0 = ground (arith, here) in rw is (sym (same 0))
    ]

-- Marking changes the frames asked for, where they are there, and no other.
pub taken_at-mark :
    (frames : List Bool) (first count i : ℕ) (v : Bool)
    → i < length frames
    → taken_at (mark frames first count v) i
      ≡ (if within first count i then v else taken_at frames i)
unfolding mark
taken_at-mark [] first count i v h = absurd (omega arith)
taken_at-mark (t ∷ frames) (suc first) count zero v h =
    let not_yet : within (suc first) count 0 ≡ false = ground arith in rw not_yet refl
taken_at-mark (t ∷ frames) (suc first) count (suc i) v h =
    let same : within (suc first) count (suc i) ≡ within first count i = ground arith in
    rw same (taken_at-mark frames first count i v (omega arith))
taken_at-mark (t ∷ frames) zero zero i v h =
    let none_asked : within 0 0 i ≡ false = ground arith in rw none_asked refl
taken_at-mark (t ∷ frames) zero (suc count) zero v h =
    let here : within 0 (suc count) 0 ≡ true = ground arith in rw here refl
taken_at-mark (t ∷ frames) zero (suc count) (suc i) v h =
    let same : within 0 (suc count) (suc i) ≡ within 0 count i = ground arith in
    rw same (taken_at-mark frames 0 count i v (omega arith))

pub length-mark :
    (frames : List Bool) (first count : ℕ) (v : Bool)
    → length (mark frames first count v) ≡ length frames
unfolding mark
length-mark [] first count v = refl
length-mark (t ∷ frames) (suc first) count v = ap suc (length-mark frames first count v)
length-mark (t ∷ frames) zero zero v = refl
length-mark (t ∷ frames) zero (suc count) v = ap suc (length-mark frames 0 count v)

-- Taking free frames leaves so many fewer, and freeing taken ones so many more.
pub count_free-mark-true :
    (frames : List Bool) (first count : ℕ)
    → AllFree frames first count
    → count_free (mark frames first count true) + count ≡ count_free frames
unfolding mark count_free
count_free-mark-true [] first zero free = omega arith
count_free-mark-true [] first (suc count) free =
    absurd (ground (arith, free first (omega arith) (omega arith)))
count_free-mark-true (t ∷ frames) (suc first) count free = omega (
  arith,
  count_free-mark-true frames first count (λ i low high. free (suc i) (omega arith) (omega arith)),
)
count_free-mark-true (t ∷ frames) zero zero free = omega arith
count_free-mark-true (t ∷ frames) zero (suc count) free =
    let here : t ≡ false = free 0 (omega arith) (omega arith) in
    rw here (
      omega (
        arith,
        count_free-mark-true frames 0 count
            (λ i low high. free (suc i) (omega arith) (omega arith)),
      ))

pub count_free-mark-false :
    (frames : List Bool) (first count : ℕ)
    → first + count ≤ length frames
    → ((i : ℕ) → first ≤ i → i < first + count → taken_at frames i ≡ true)
    → count_free (mark frames first count false) ≡ count_free frames + count
unfolding mark count_free
count_free-mark-false [] first count inside held = omega arith
count_free-mark-false (t ∷ frames) (suc first) count inside held = omega (
  arith,
  count_free-mark-false frames first count (omega arith)
      (λ i low high. held (suc i) (omega arith) (omega arith)),
)
count_free-mark-false (t ∷ frames) zero zero inside held = omega arith
count_free-mark-false (t ∷ frames) zero (suc count) inside held =
    let here : t ≡ true = held 0 (omega arith) (omega arith) in
    rw here (
      omega (
        arith,
        count_free-mark-false frames 0 count (omega arith)
            (λ i low high. held (suc i) (omega arith) (omega arith)),
      ))

-- A run that the loop finds is there and free.
pub find_run-free :
    (frames first : ℕ) (taken : List Bool)
    → 0 < frames
    → find_run frames 0 0 taken ≡ some first
    → AllFree taken first frames × (first + frames ≤ length taken)
find_run-free frames first taken pos h =
    let free : AllFree taken first frames =
      find_run-AllFree taken frames 0 0 first taken pos (omega arith)
        (λ j. ap (taken_at taken) (omega arith)) (λ j low high. absurd (omega arith)) h in
    (
      free,
      omega (
        arith,
        free-inside taken (first + frames - 1)
            (free (first + frames - 1) (omega arith) (omega arith)),
      ),
    )

pub count_free-le : (frames : List Bool) → count_free frames ≤ length frames
unfolding count_free
count_free-le [] = omega arith
count_free-le (true ∷ frames) = omega (arith, count_free-le frames)
count_free-le (false ∷ frames) = omega (arith, count_free-le frames)

pub count_free-mark_none :
    (frames : List Bool) (first : ℕ) (v : Bool)
    → count_free (mark frames first 0 v) ≡ count_free frames
unfolding mark count_free
count_free-mark_none [] first v = refl
count_free-mark_none (t ∷ frames) (suc first) v = omega (arith, count_free-mark_none frames first v)
count_free-mark_none (t ∷ frames) zero v = refl
