-- ===== src/Memory.antt =====
-- Memory of src/memory.cc and include/rail/memory.h: regions cut into frames, and runs of frames
-- handed out and given back. A region is its index, since none is ever dropped. Whether a region
-- can be had of the system and registered is a parameter, and so is what other threads do while
-- alloc holds no lock.
pub mod Frames
pub mod Taking
pub mod Owned
pub mod Steps
pub mod Sound
pub mod Alloc
use rail.Prelude.{
  ℕ, zero, suc, ◌+◌, ◌-◌, ◌*◌, ◌/◌, Bool, true, false, not, Option, none, some, List, [], ◌∷◌, ◌++◌,
  length, get_or, set, replicate, ltb, leb, ◌==◌, if◌then◌else◌,
}

-- MemoryRegion: Taken and Used
pub record MemoryRegion : Type 0 where
  pub taken : List Bool
  pub used : ℕ

pub record MemoryStats : Type 0 where
  pub allocated : ℕ
  pub direct : ℕ
  pub copied : ℕ
  pub exhausted : ℕ
  pub regions_grown : ℕ

pub record Memory : Type 0 where
  pub regions : List MemoryRegion
  pub region_bytes : ℕ
  pub frame_size : ℕ
  pub region_ceiling : ℕ
  pub stats : MemoryStats

-- A valid Run; alloc's invalid one is none.
pub record Run : Type 0 where
  pub home : ℕ
  pub first : ℕ
  pub frames : ℕ

abbrev pub no_region : MemoryRegion
no_region = record { taken = []; used = 0 }

-- framesFor
unfoldable pub frames_for : ℕ → ℕ → ℕ
frames_for bytes frame_size = (bytes + frame_size - 1) / frame_size

-- The loop over I, with Consecutive: the first of so many free frames in a row.
unfoldable pub find_run : ℕ → ℕ → ℕ → List Bool → Option ℕ
find_run frames i consecutive [] = none
find_run frames i consecutive (t ∷ rest) =
    let consecutive' = if t then 0 else consecutive + 1 in
    let later = find_run frames (i + 1) consecutive' rest in
    if ltb consecutive' frames then later else some (i + 1 - frames)

-- Taken[J] = V for J from First on
unfoldable pub mark : List Bool → ℕ → ℕ → Bool → List Bool
mark [] first count v = []
mark (t ∷ rest) (suc first) count v = t ∷ mark rest first count v
mark (t ∷ rest) zero zero v = t ∷ rest
mark (t ∷ rest) zero (suc count) v = v ∷ mark rest zero count v

-- What takeLocked leaves of a region where it takes a run.
unfoldable pub take_frames : MemoryRegion → ℕ → ℕ → MemoryRegion
take_frames r first frames = record {
  taken = mark r.taken first frames true;
  used = r.used + frames;
}

-- One region: the first frame of a run in it.
unfoldable pub pick_in : ℕ → MemoryRegion → Option ℕ
pick_in frames r =
    if ltb (length r.taken - r.used) frames then none else find_run frames 0 0 r.taken

abbrev pub or_later : ℕ → Option ℕ → Option (ℕ × ℕ) → Option (ℕ × ℕ)
or_later home (some first) later = some (home, first)
or_later home none later = later

-- The first region that has room in a row, from the index on, with the run's first frame.
unfoldable pub pick : ℕ → ℕ → List MemoryRegion → Option (ℕ × ℕ)
pick frames home [] = none
pick frames home (r ∷ rest) = or_later home (pick_in frames r) (pick frames (home + 1) rest)

abbrev pub count_allocated : MemoryStats → MemoryStats
count_allocated s = record s { allocated = s.allocated + 1 }

abbrev pub count_exhausted : MemoryStats → MemoryStats
count_exhausted s = record s { exhausted = s.exhausted + 1 }

unfoldable pub take_at : Memory → ℕ → Option (ℕ × ℕ) → Memory × Option Run
take_at m frames none = (m, none)
take_at m frames (some (home, first)) = (
  record m {
    regions = set m.regions home (take_frames (get_or m.regions home no_region) first frames);
    stats = count_allocated m.stats;
  },
  some (record { home = home; first = first; frames = frames }),
)

unfoldable pub take_locked : Memory → ℕ → Memory × Option Run
take_locked m frames = take_at m frames (pick frames 0 m.regions)

-- Memory::release
unfoldable pub give_frames : MemoryRegion → ℕ → ℕ → MemoryRegion
give_frames r first frames = record {
  taken = mark r.taken first frames false;
  used = r.used - frames;
}

unfoldable pub release : Memory → Run → Memory
release m run = record m {
  regions =
      set m.regions run.home
        (give_frames (get_or m.regions run.home no_region) run.first run.frames);
}

-- What build makes, where posix_memalign and the registration succeed.
unfoldable pub fresh_region : Memory → MemoryRegion
fresh_region m = record { taken = replicate (m.region_bytes / m.frame_size) false; used = 0 }

-- The end of growLocked.
unfoldable pub push_region : Memory → Memory
push_region m = record m {
  regions = m.regions ++ (fresh_region m ∷ []);
  stats = record m.stats { regions_grown = m.stats.regions_grown + 1 };
}

-- The memory, and the runs that are handed out and not given back, whoever holds them.
pub record State : Type 0 where
  pub memory : Memory
  pub out : List Run

abbrev pub exhausted_in : State → State
exhausted_in s = record s { memory = record s.memory { stats = count_exhausted s.memory.stats } }

unfoldable pub take_in : State → ℕ → State × Option Run
take_in s frames =
    let taken = take_locked s.memory frames in (record s { memory = taken.0 }, taken.1)

-- The look after growLocked, with what it takes.
unfoldable pub ended : State × Option Run → State × Option Run
ended (s, some run) = (s, some run)
ended (s, none) = (exhausted_in s, none)

-- alloc looks three times. `between n` is what other threads do to the memory and to the runs that
-- are out while it holds no lock for the n-th time; they do not grow it from the second time on,
-- since Growing is held.
module _ (between : ℕ → State → State) (can_build : Bool) where
  unfoldable pub grow_and_look : ℕ → State → State × Option Run
  grow_and_look frames s =
      let built = between 2 s in
      if not (ltb (length s.memory.regions) s.memory.region_ceiling)
      then (exhausted_in (between 3 s), none)
      else if not can_build
      then (exhausted_in (between 3 built), none)
      else ended (take_in (between 3 (record built { memory = push_region built.memory })) frames)

  unfoldable pub second_look : ℕ → State × Option Run → State × Option Run
  second_look frames (s, some run) = (s, some run)
  second_look frames (s, none) = grow_and_look frames (between 1 s)

  unfoldable pub first_look : ℕ → State × Option Run → State × Option Run
  first_look frames (s, some run) = (s, some run)
  first_look frames (s, none) = second_look frames (take_in (between 0 s) frames)

  unfoldable pub alloc : State → ℕ → State × Option Run
  alloc s bytes =
      let frames = frames_for bytes s.memory.frame_size in
      if bytes == 0
      then (s, none)
      else if ltb (s.memory.region_bytes / s.memory.frame_size) frames
      then (exhausted_in s, none)
      else first_look frames (take_in s frames)

unfoldable pub count_free : List Bool → ℕ
count_free [] = 0
count_free (t ∷ rest) = (if t then 0 else 1) + count_free rest

-- freeFrames and totalFrames
unfoldable pub free_frames : List MemoryRegion → ℕ
free_frames [] = 0
free_frames (r ∷ rest) = count_free r.taken + free_frames rest

unfoldable pub total_frames : List MemoryRegion → ℕ
total_frames [] = 0
total_frames (r ∷ rest) = length r.taken + total_frames rest

-- kMaxRegions and kReclaimableShare
abbrev pub max_regions : ℕ
max_regions = 64

unfoldable pub regions_that_fit : ℕ → ℕ → ℕ
regions_that_fit available region_bytes =
    let fits = available / 4 / region_bytes in
    if region_bytes == 0
    then 1
    else if ltb fits 1
    then 1
    else if ltb max_regions fits
    then max_regions
    else fits
