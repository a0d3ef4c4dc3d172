-- ===== src/App/Differ/Found.antt =====
-- What a lookup that finds a block has compared.
use rail.Prelude.{
  ℕ, zero, suc, ◌≡◌, refl, true, ◌&&◌, Option, none, some, List, [], ◌+◌, length, get_or,
  Bool-cases, inl, inr, arith,
}
use rail.Proto.Bytes.{Bytes}
use rail.Proto.Message.{Signature}
use rail.App.Signature.{block_length_at}
use rail.App.Differ.{
  Table, Hits, is_candidate, strong_matches, first_of, is_wanted, walk, look_from, lookup,
}

-- Of the value, where there is one.
abbrev pub Whenever {ℓ κ} : {A : Type ℓ} → (A → Type κ) → Option A → Type κ
Whenever P none = Unit
Whenever P (some a) = P a

module _ (strong_checksum : Bytes → Bytes) (sig : Signature) (win : Bytes) where
  -- The block is as long as the window, and its weak sum and its strong checksum are the window's.
  pub record IsFound (weak i : ℕ) : Type 0 where
    pub weak_sum : (get_or sig.sums i (record { weak = 0; strong = [] })).weak ≡ weak
    pub long : block_length_at sig i ≡ length win
    pub strong : strong_matches strong_checksum sig i win ≡ true

  found :
      (weak i : ℕ)
      → (is_candidate sig weak win i && strong_matches strong_checksum sig i win) ≡ true
      → IsFound weak i
  unfolding is_candidate
  found weak i h = record { weak_sum = ground arith; long = ground arith; strong = ground arith }

  first_of-IsFound :
      (weak : ℕ) (best : Option ℕ) (i : ℕ)
      → Whenever (IsFound weak) best
      → IsFound weak i
      → Whenever (IsFound weak) (first_of best i)
  unfolding first_of
  first_of-IsFound weak none i h k = k
  first_of-IsFound weak (some b) i h k = h

  walk-IsFound :
      (chain : List (Option ℕ)) (weak want_i budget : ℕ) (at best : Option ℕ) (rep : Hits)
      → Whenever (IsFound weak) best
      → Whenever
          (IsFound weak)
          (walk strong_checksum sig chain weak win want_i budget at best rep).0
  unfolding walk
  walk-IsFound chain weak want_i budget none best rep h = h
  walk-IsFound chain weak want_i zero (some i) best rep h = h
  walk-IsFound chain weak want_i (suc budget) (some i) best rep h =
      let alarm : Hits = record {
        hash_hits = rep.hash_hits;
        false_alarms = rep.false_alarms + 1;
      } in
      let next = get_or chain i none in
      elim (Bool-cases (is_candidate sig weak win i)) [
        | inr other ↦ rw other (walk-IsFound chain weak want_i budget next best rep h)
        | inl candidate ↦ elim (Bool-cases (strong_matches strong_checksum sig i win)) [
          | inr differs ↦
              rw (candidate, differs) (walk-IsFound chain weak want_i budget next best alarm h)
          | inl same ↦
              let this : IsFound weak i = found weak i (rw (candidate, same) refl) in
              elim (Bool-cases (is_wanted want_i i)) [
                | inl wanted ↦ rw (candidate, same, wanted) this
                | inr later ↦
                    rw (candidate, same, later)
                      (walk-IsFound chain weak want_i budget next (first_of best i) rep
                        (first_of-IsFound weak best i h this))
              ]
        ]
      ]

  look_from-IsFound :
      (chain : List (Option ℕ)) (weak want_i max_chain_len : ℕ) (at : Option ℕ) (rep : Hits)
      → Whenever
          (IsFound weak)
          (look_from strong_checksum sig chain weak win want_i max_chain_len at rep).0
  unfolding look_from
  look_from-IsFound chain weak want_i max_chain_len none rep = record {}
  look_from-IsFound chain weak want_i max_chain_len (some i) rep =
      walk-IsFound chain weak want_i max_chain_len (some i) none _ (record {})

  pub lookup-IsFound :
      (table : Table) (weak want_i max_chain_len : ℕ) (rep : Hits)
      → Whenever
          (IsFound weak)
          (lookup strong_checksum sig table weak win want_i max_chain_len rep).0
  unfolding lookup
  lookup-IsFound table weak want_i max_chain_len rep =
      look_from-IsFound table.chain weak want_i max_chain_len _ rep
