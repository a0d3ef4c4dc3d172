-- ===== src/Tests/Frames.antt =====
-- Memory with one region of four frames.
use rail.Prelude.{ℕ, ◌+◌, ◌≤◌, ◌≡◌, refl, true, none, some, List, [], ◌∷◌, length, arith}
use rail.Memory.{
  Memory, Run, State, take_in, frames_for, find_run, mark, take_frames, pick_in, pick, take_at,
  take_locked, give_frames, release, fresh_region, push_region, ended, grow_and_look, second_look,
  first_look, alloc, count_free, free_frames, total_frames, regions_that_fit,
}
use rail.Memory.Owned.{region_at, holders}
use rail.Memory.Steps.{Step, take, give, grow, Steps, here, more}
use rail.Memory.Sound.{Steps-one_holder}

abbrev small : Memory
small = record {
  regions = [];
  region_bytes = 8;
  frame_size = 2;
  region_ceiling = 1;
  stats = record { allocated = 0; direct = 0; copied = 0; exhausted = 0; regions_grown = 0 };
}

-- Nobody else does anything.
abbrev alone : ℕ → State → State
alone n s = s

abbrev give_first : Memory → List Run → State
give_first m [] = record { memory = m; out = [] }
give_first m (run ∷ out) = record { memory = release m run; out = out }

-- Another thread gives back the run that was taken last, where one is out.
abbrev gives_back : ℕ → State → State
gives_back n s = give_first s.memory s.out

abbrev grown : Memory
grown = push_region small

abbrev nothing_out : State
nothing_out = record { memory = small; out = [] }

abbrev run_of : ℕ → ℕ → Run
run_of first frames = record { home = 0; first = first; frames = frames }

abbrev two_out : State
two_out = record {
  memory = (take_locked (take_locked grown 1).0 2).0;
  out = run_of 1 2 ∷ run_of 0 1 ∷ [];
}

abbrev one_back : State
one_back = record { memory = release two_out.memory (run_of 0 1); out = run_of 1 2 ∷ [] }

second_call : (alloc alone true (alloc alone true nothing_out 3).0 4).1 ≡ some (run_of 2 2)
unfolding alloc first_look second_look grow_and_look ended push_region fresh_region frames_for
    take_in take_locked take_at pick pick_in find_run mark take_frames
second_call = refl

full_call : (alloc alone true two_out 4).1 ≡ none
unfolding alloc first_look second_look grow_and_look ended push_region fresh_region frames_for
    take_in take_locked take_at pick pick_in find_run mark take_frames
full_call = refl

too_long_call : (alloc alone true nothing_out 9).1 ≡ none
unfolding alloc frames_for
too_long_call = refl

free_counted : free_frames one_back.memory.regions ≡ 2
unfolding free_frames count_free release give_frames take_locked take_at pick pick_in find_run mark
    take_frames push_region fresh_region
free_counted = refl

counted_all : total_frames one_back.memory.regions ≡ 4
unfolding total_frames release give_frames take_locked take_at pick pick_in find_run mark
    take_frames push_region fresh_region
counted_all = refl

fitting : regions_that_fit 4096 64 ≡ 16
unfolding regions_that_fit
fitting = refl

back_Steps : Steps (record { memory = small; out = [] }) one_back
unfolding take_locked take_at pick pick_in find_run mark take_frames push_region fresh_region
back_Steps =
    let one : Step (record { memory = grown; out = [] })
        (record { memory = (take_locked grown 1).0; out = run_of 0 1 ∷ [] }) =
      take 1 (omega arith) refl in
    let two : Step (record { memory = (take_locked grown 1).0; out = run_of 0 1 ∷ [] }) two_out =
      take 2 (omega arith) refl in
    more (more (more (more here (grow (omega arith))) one) two)
      (give (run_of 1 2 ∷ []) (run_of 0 1) [])

Steps-one_holder_example :
    ((h i : ℕ) → holders (run_of 1 2 ∷ []) h i ≤ 1)
    × ((h : ℕ)
        → (region_at one_back.memory.regions h).used
            + count_free (region_at one_back.memory.regions h).taken
          ≡ length (region_at one_back.memory.regions h).taken)
    × (length one_back.memory.regions ≤ one_back.memory.region_ceiling)
Steps-one_holder_example = Steps-one_holder small refl back_Steps

-- What is given back meanwhile is taken.
waited_call : (alloc gives_back true two_out 4).1 ≡ some (run_of 1 2)
unfolding alloc first_look second_look grow_and_look ended push_region fresh_region frames_for
    take_in take_locked take_at pick pick_in find_run mark take_frames release give_frames
waited_call = refl
