-- ===== src/App/Differ/Whole.antt =====
-- The whole scan: what it sends rebuilds the source.
use rail.Prelude.{
  ℕ, zero, suc, ◌+◌, ◌-◌, ◌≤◌, ◌≡◌, refl, ap, ◌∙◌, ◌⊎◌, Bool-cases, inl, inr, false, Option, none,
  some, List, length, take, drop, leb, if◌then◌else◌, arith,
}
use rail.Result.{Result, ok, ◌>>=◌}
use rail.App.Checksum.{weak_checksum}
use rail.App.Differ.{Instruction, Table, lookup}
use rail.App.Differ.Scan.{
  Window, Progress, Next, stop, again, after_lookup, look_at, round, goes_on, scan,
}
use rail.App.Differ.Found.{Whenever, IsFound, lookup-IsFound}
use rail.App.Differ.Windows.{Shows-here, IsFresh, IsReady, ensure_window-IsReady}
use rail.App.Differ.Emitting.{keep}
use rail.App.Differ.Rounds.{Setting, Holds, Enough, GoesWell, missed-GoesWell, matched-GoesWell}

module _ (g : Setting) where
  after_lookup-GoesWell :
      (k : ℕ) (st : Progress (List Instruction)) (found : Option ℕ)
      → Holds g st
      → IsReady g.src g.law g.measured st.window st.offset g.sig.block_length
          (length st.window.buffer)
      → st.offset + g.sig.block_length ≤ g.src.size
      → Enough g (suc k) st.window st.offset
      → st.weak ≡ weak_checksum (take g.sig.block_length (drop st.offset g.src.contents))
      → Whenever
          (IsFound g.strong_checksum g.sig
            (take g.sig.block_length (drop (st.offset - st.window.base) st.window.buffer))
            st.weak)
          found
      → (next : Next (List Instruction)) × (after_lookup keep g.strong_checksum g.sig
            g.max_chain_len g.src st found
          ≡ ok next)
        × GoesWell g k next
  unfolding after_lookup
  after_lookup-GoesWell k st none h ready inside enough current right =
      missed-GoesWell g k st h ready.low enough
  after_lookup-GoesWell k st (some i) h ready inside enough current right =
      matched-GoesWell g k st i h ready inside enough current right

  Enough-again :
      (k at room : ℕ) (win win' : Window)
      → Enough g (suc k) win at
      → length win.buffer ≡ room
      → length win'.buffer ≡ room
      → (win' ≡ win) ⊎ IsFresh g.src g.law g.measured win' at room
      → Enough g (suc k) win' at
  Enough-again k at room win win' enough was is (inl same) = rw same enough
  Enough-again k at room win win' (inl plain) was is (inr fresh) = inr (omega arith, rw is fresh)
  Enough-again k at room win win' (inr (cost, old)) was is (inr fresh) = inr (cost, rw is fresh)

  round-GoesWell :
      (k : ℕ) (table : Table) (st : Progress (List Instruction))
      → Holds g st
      → Enough g (suc k) st.window st.offset
      → (next : Next (List Instruction)) × (round keep g.strong_checksum g.sig g.max_chain_len g.src
            table st
          ≡ ok next)
        × GoesWell g k next
  unfolding round look_at
  round-GoesWell k table st h enough =
      elim (Bool-cases (leb (st.offset + g.sig.block_length) g.src.size)) [
        | inr over ↦ (stop st, rw over refl, h)
        | inl under ↦
            let inside : st.offset + g.sig.block_length ≤ g.src.size = ground arith in
            let roomy : g.sig.block_length ≤ length st.window.buffer =
              omega (arith, h.room, g.short_block, g.fits) in
            let (win, ensured, ready, from) =
              ensure_window-IsReady g.src g.law g.measured st.window st.offset g.sig.block_length
                h.shows h.inside roomy in
            let here = take g.sig.block_length (drop (st.offset - win.base) win.buffer) in
            let weak = if st.stale then weak_checksum here else st.weak in
            let shown : here ≡ take g.sig.block_length (drop st.offset g.src.contents) =
              Shows-here g.src.contents win g.sig.block_length st.offset ready.shows ready.low
                (omega (arith, ready.high)) in
            let current : weak
                ≡ weak_checksum (take g.sig.block_length (drop st.offset g.src.contents)) =
              elim (Bool-cases st.stale) [
                | inl stale ↦ rw stale (ap weak_checksum shown)
                | inr kept ↦ rw kept (h.current kept)
              ] in
            let looked =
              lookup g.strong_checksum g.sig table weak here st.want_i g.max_chain_len st.hits in
            let st' : Progress (List Instruction) = record {
              window = win;
              offset = st.offset;
              last_match = st.last_match;
              weak = weak;
              stale = false;
              want_i = st.want_i;
              hits = looked.1;
              output = st.output;
            } in
            let holds : Holds g st' = record {
              shows = ready.shows;
              room = ready.room_kept ∙ h.room;
              upto = h.upto;
              ahead = h.ahead;
              inside = h.inside;
              current = λ fresh. current;
            } in
            let (next, went, well) =
              after_lookup-GoesWell k st' looked.0 holds (rw ready.room_kept ready) inside
                (Enough-again k st.offset (length st.window.buffer) st.window win enough refl
                  ready.room_kept from)
                current
                (lookup-IsFound g.strong_checksum g.sig here table weak st.want_i g.max_chain_len
                  st.hits) in
            (next, rw (under, ensured, ◌>>=◌) went, well)
      ]

  goes_on-Holds :
      (fuel : ℕ) (k : Progress (List Instruction) → Result (Progress (List Instruction)))
      (next : Next (List Instruction))
      → ((st : Progress (List Instruction))
          → Holds g st
          → Enough g fuel st.window st.offset
          → (st' : Progress (List Instruction)) × (k st ≡ ok st') × Holds g st')
      → GoesWell g fuel next
      → (st' : Progress (List Instruction)) × (goes_on keep g.strong_checksum g.sig g.max_chain_len
            g.src k next
          ≡ ok st')
        × Holds g st'
  unfolding goes_on
  goes_on-Holds fuel k (stop last) rest well = (last, refl, well)
  goes_on-Holds fuel k (again st) rest (well, cost) = rest st well cost

  -- The scan ends with rounds to spare.
  pub scan-Holds :
      (fuel : ℕ) (table : Table) (st : Progress (List Instruction))
      → Holds g st
      → Enough g fuel st.window st.offset
      → (st' : Progress (List Instruction)) × (scan keep g.strong_checksum g.sig g.max_chain_len
            g.src fuel table st
          ≡ ok st')
        × Holds g st'
  unfolding scan
  scan-Holds zero table st h (inl plain) = absurd (omega arith)
  scan-Holds zero table st h (inr (cost, fresh)) = absurd (omega arith)
  scan-Holds (suc fuel) table st h enough =
      let (next, went, well) = round-GoesWell fuel table st h enough in
      let (st', onwards, holds) =
        goes_on-Holds fuel (scan keep g.strong_checksum g.sig g.max_chain_len g.src fuel table) next
          (scan-Holds fuel table) well in
      (st', rw (went, ◌>>=◌) onwards, holds)
