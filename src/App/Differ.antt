-- ===== src/App/Differ.antt =====
-- src/app/differ.cc: what a Differ keeps, its hash table and the lookup in it. An int32_t index is
-- an Option, with none for -1, and a uint64_t offset is a number: offsets stay within a file.
pub mod Scan
pub mod Rebuild
pub mod Found
pub mod Windows
pub mod Emitting
pub mod Rolled
pub mod Rounds
pub mod Whole
pub mod Last
pub mod Ending
pub mod Delta
use rail.Prelude.{
  ℕ, zero, suc, ◌+◌, ◌*◌, ◌/◌, ◌%◌, ◌^◌, Bool, true, false, ◌&&◌, not, Option, none, some, List, [],
  ◌∷◌, length, get_or, set, replicate, take, ltb, ◌==◌, if◌then◌else◌, max,
}
use rail.Proto.Bytes.{Bytes}
use rail.Proto.Message.{BlockSum, Signature}
use rail.App.Checksum.{u32, weak_hash}
use rail.App.Signature.{block_length_at}

-- kMaxWindow
abbrev pub max_window : ℕ
max_window = 4 * 2 ^ 20

pub data Instruction : Type 0 where
  copy : (block_index src_offset dst_offset length : ℕ) → (bytes : Bytes) → Instruction
  literal : (src_offset dst_offset length : ℕ) → Instruction

-- HashTable, whose length is TableSize, and Chain
pub record Table : Type 0 where
  pub heads : List (Option ℕ)
  pub chain : List (Option ℕ)

-- The counters of a Report that a lookup changes.
pub record Hits : Type 0 where
  pub hash_hits : ℕ
  pub false_alarms : ℕ

-- static_cast<uint32_t>(Count / 8) * 10 + 11, and 1u << 16 at least
unfoldable pub table_size : ℕ → ℕ
table_size count = max (u32 (u32 (count / 8) * 10 + 11)) (2 ^ 16)

-- The loop of buildHashTable, over the sums from the I-th on.
unfoldable pub enter_sums : ℕ → List BlockSum → ℕ → Table → Table
enter_sums size [] i table = table
enter_sums size (sum ∷ rest) i table =
    let t = weak_hash sum.weak % size in
    enter_sums size rest (suc i) (record {
      heads = set table.heads t (some i);
      chain = set table.chain i (get_or table.heads t none);
    })

unfoldable pub build_hash_table : Signature → Table
build_hash_table sig =
    let size = table_size (length sig.sums) in
    enter_sums size sig.sums 0
      (record { heads = replicate size none; chain = replicate (length sig.sums) none })

-- std::memcmp(A.data(), B.data(), N) == 0
unfoldable pub same_bytes : ℕ → Bytes → Bytes → Bool
same_bytes zero a b = true
same_bytes (suc n) (a ∷ rest_a) (b ∷ rest_b) = (a == b) && same_bytes n rest_a rest_b
same_bytes (suc n) [] [] = true
same_bytes (suc n) [] (b ∷ rest_b) = false
same_bytes (suc n) (a ∷ rest_a) [] = false

-- Whether the lookup compares the strong checksums at this entry of the chain.
unfoldable pub is_candidate : Signature → ℕ → Bytes → ℕ → Bool
is_candidate sig weak win i =
    ((get_or sig.sums i (record { weak = 0; strong = [] })).weak == weak)
    && (block_length_at sig i == length win)

-- if (Best < 0) Best = I
unfoldable pub first_of : Option ℕ → ℕ → Option ℕ
first_of none i = some i
first_of (some best) i = some best

unfoldable pub is_wanted : ℕ → ℕ → Bool
is_wanted want_i i = i == want_i

module _ (strong_checksum : Bytes → Bytes) where
  -- Sig.Sums[I].Strong against the checksum of the window
  unfoldable pub strong_matches : Signature → ℕ → Bytes → Bool
  strong_matches sig i win =
      same_bytes sig.strong_length (strong_checksum win)
        (get_or sig.sums i (record { weak = 0; strong = [] })).strong

  -- The loop over the chain. `budget` is how many entries MaxChainLen lets it visit.
  unfoldable pub walk :
      (sig : Signature) (chain : List (Option ℕ)) (weak : ℕ) (win : Bytes) (want_i budget : ℕ)
      → Option ℕ
      → Option ℕ
      → Hits
      → Option ℕ × Hits
  walk sig chain weak win want_i budget none best rep = (best, rep)
  walk sig chain weak win want_i zero (some i) best rep = (best, rep)
  walk sig chain weak win want_i (suc budget) (some i) best rep =
      let candidate = is_candidate sig weak win i in
      let same = strong_matches sig i win in
      let alarm : Hits = record {
        hash_hits = rep.hash_hits;
        false_alarms = rep.false_alarms + 1;
      } in
      let rest =
        walk sig chain weak win want_i budget (get_or chain i none)
          (if candidate && same then first_of best i else best)
          (if candidate && not same then alarm else rep) in
      if candidate && same && is_wanted want_i i then (some i, rep) else rest

  unfoldable pub look_from :
      (sig : Signature) (chain : List (Option ℕ)) (weak : ℕ) (win : Bytes)
      (want_i max_chain_len : ℕ)
      → Option ℕ
      → Hits
      → Option ℕ × Hits
  look_from sig chain weak win want_i max_chain_len none rep = (none, rep)
  look_from sig chain weak win want_i max_chain_len (some i) rep =
      walk sig chain weak win want_i max_chain_len (some i) none
        (record { hash_hits = rep.hash_hits + 1; false_alarms = rep.false_alarms })

  unfoldable pub lookup :
      (sig : Signature) (table : Table) (weak : ℕ) (win : Bytes) (want_i max_chain_len : ℕ)
      → Hits
      → Option ℕ × Hits
  lookup sig table weak win want_i max_chain_len rep =
      look_from sig table.chain weak win want_i max_chain_len
        (get_or table.heads (weak_hash weak % table_size (length sig.sums)) none) rep
