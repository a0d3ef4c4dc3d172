-- ===== src/App/Differ/Rounds.antt =====
-- What one round of the scan keeps, and that it makes progress.
use rail.Prelude.{
  ℕ, suc, ◌+◌, ◌-◌, ◌*◌, ◌≤◌, ◌<◌, ◌≡◌, refl, sym, ap, ◌∙◌, ◌⊎◌, Bool-cases, inl, inr, true, false,
  All, List, [], length, get_or, take, drop, leb, min, length-take, length-drop, arith,
}
use rail.Result.{ok, ◌>>=◌}
use rail.Proto.Bytes.{Bytes, IsByte}
use rail.Proto.Message.{Signature}
use rail.Fs.Reader.{FileReader, Serves}
use rail.App.Checksum.{weak_checksum, roll_weak}
use rail.App.Differ.Rolled.{rolled}
use rail.App.Signature.{block_length_at}
use rail.App.Differ.{Instruction, strong_matches, max_window}
use rail.App.Differ.Scan.{
  Window, Output, Progress, Next, stop, again, emit_upto, emit_copy, missed, matched,
}
use rail.App.Differ.Rebuild.{basis_block}
use rail.App.Differ.Found.{IsFound}
use rail.App.Differ.Windows.{Shows, Shows-here, IsFresh, IsReady, fill_window-IsFresh}
use rail.App.Differ.Emitting.{keep, Upto, Upto-at, emit_upto-Upto, emit_copy-Upto}

-- Where a stretch of the source has the weak sum of a block of the signature and, as far as the
-- signature compares it, its strong checksum, it is the block of the basis.
abbrev pub Distinguishes : (Bytes → Bytes) → Signature → Bytes → Bytes → Type 0
Distinguishes strong_checksum sig source basis =
    (i at : ℕ)
    → at + block_length_at sig i ≤ length source
    → weak_checksum (take (block_length_at sig i) (drop at source))
      ≡ (get_or sig.sums i (record { weak = 0; strong = [] })).weak
    → strong_matches strong_checksum sig i (take (block_length_at sig i) (drop at source)) ≡ true
    → basis_block source basis sig i ≡ take (block_length_at sig i) (drop at source)

-- A source and the signature of a basis that a scan can work on.
pub record Setting : Type 0 where
  pub strong_checksum : Bytes → Bytes
  pub sig : Signature
  pub max_chain_len : ℕ
  pub src : FileReader
  pub basis : Bytes
  pub law : Serves src
  pub measured : src.size ≡ length src.contents
  pub bytes : All IsByte src.contents
  pub page_bytes : ℕ
  pub paged : max_window ≤ page_bytes
  pub distinct : Distinguishes strong_checksum sig src.contents basis
  pub some_block : 0 < sig.block_length
  pub short_block : sig.block_length < max_window
  pub fits : sig.block_length ≤ src.size

module _ (g : Setting) where
  pub record Holds (st : Progress (List Instruction)) : Type 0 where
    pub shows : Shows g.src.contents st.window
    pub room : length st.window.buffer ≡ min max_window g.src.size
    pub upto : Upto g.page_bytes g.src.contents g.basis g.sig st.output st.last_match
    pub ahead : st.last_match ≤ st.offset
    pub inside : st.offset ≤ g.src.size
    pub current :
        st.stale ≡ false
        → st.weak ≡ weak_checksum (take g.sig.block_length (drop st.offset g.src.contents))

  -- Rounds that are enough from an offset on: two a byte, with one less where the window is fresh.
  abbrev pub Enough : ℕ → Window → ℕ → Type 0
  Enough k win at =
      (2 * (g.src.size - at) + 2 ≤ k)
      ⊎ ((2 * (g.src.size - at) + 1 ≤ k)
          × IsFresh g.src g.law g.measured win at (length win.buffer))

  abbrev pub GoesWell : ℕ → Next (List Instruction) → Type 0
  GoesWell k (stop st) = Holds st
  GoesWell k (again st) = Holds st × Enough k st.window st.offset

  refill_cost :
      (k : ℕ) (st : Progress (List Instruction))
      → Holds st
      → st.window.base ≤ st.offset
      → Enough (suc k) st.window st.offset
      → st.offset + g.sig.block_length < g.src.size
      → st.window.len ≤ st.offset - st.window.base + g.sig.block_length
      → 2 * (g.src.size - st.offset) + 1 ≤ k
  refill_cost k st h low (inl plain) more short = omega arith
  refill_cost k st h low (inr (cost, fresh)) more short =
      absurd (omega (arith, h.room, fresh.base, fresh.len))

  roll_cost :
      (k : ℕ) (st : Progress (List Instruction))
      → Enough (suc k) st.window st.offset
      → st.offset < g.src.size
      → 2 * (g.src.size - (st.offset + 1)) + 2 ≤ k
  roll_cost k st (inl plain) more = omega arith
  roll_cost k st (inr (cost, fresh)) more = omega arith

  match_cost :
      (k : ℕ) (st : Progress (List Instruction))
      → Enough (suc k) st.window st.offset
      → st.offset + g.sig.block_length ≤ g.src.size
      → 2 * (g.src.size - (st.offset + g.sig.block_length)) + 2 ≤ k
  match_cost k st (inl plain) more = omega arith
  match_cost k st (inr (cost, fresh)) more = omega arith

  pub missed-GoesWell :
      (k : ℕ) (st : Progress (List Instruction))
      → Holds st
      → st.window.base ≤ st.offset
      → Enough (suc k) st.window st.offset
      → (next : Next (List Instruction)) × (missed keep g.strong_checksum g.sig g.max_chain_len
            g.src st
          ≡ ok next)
        × GoesWell k next
  unfolding missed
  missed-GoesWell k st h low enough =
      elim (Bool-cases (leb g.src.size (st.offset + g.sig.block_length))) [
        | inl last ↦ (stop st, rw last refl, h)
        | inr more ↦
            elim (Bool-cases
              (leb st.window.len (st.offset - st.window.base + g.sig.block_length))) [
                | inl short ↦
                    let (win, filled, fresh) =
                      fill_window-IsFresh g.src g.law g.measured st.window st.offset h.inside in
                    let next : Progress (List Instruction) = record {
                      window = win;
                      offset = st.offset;
                      last_match = st.last_match;
                      weak = st.weak;
                      stale = true;
                      want_i = st.want_i;
                      hits = st.hits;
                      output = st.output;
                    } in
                    (
                      again next,
                      rw (more, short, filled, ◌>>=◌) refl,
                      (
                        record {
                          shows = fresh.shows;
                          room = fresh.room_kept ∙ h.room;
                          upto = h.upto;
                          ahead = h.ahead;
                          inside = h.inside;
                          current = λ fresh. absurd (ground (arith, fresh));
                        },
                        inr (
                          refill_cost k st h low enough (ground arith) (ground arith),
                          rw fresh.room_kept fresh,
                        ),
                      ),
                    )
                | inr long ↦
                    let w = st.offset - st.window.base in
                    let next : Progress (List Instruction) = record {
                      window = st.window;
                      offset = st.offset + 1;
                      last_match = st.last_match;
                      weak =
                          roll_weak st.weak (get_or st.window.buffer w 0)
                            (get_or st.window.buffer (w + g.sig.block_length) 0) g.sig.block_length;
                      stale = st.stale;
                      want_i = st.want_i;
                      hits = st.hits;
                      output = st.output;
                    } in
                    (
                      again next,
                      rw (more, long) refl,
                      (
                        record {
                          shows = h.shows;
                          room = h.room;
                          upto = h.upto;
                          ahead = omega (arith, h.ahead);
                          inside = ground arith;
                          current = λ fresh.
                              rolled g.src.contents st.window g.sig.block_length st.offset st.weak
                                g.bytes h.shows low g.some_block (omega (arith, g.short_block))
                                (ground arith) (h.current fresh);
                        },
                        inl (roll_cost k st enough (ground arith)),
                      ),
                    )
              ]
      ]

  matched_step :
      (st : Progress (List Instruction)) (i len : ℕ) (piece : Bytes)
      (before after : Output (List Instruction))
      → block_length_at g.sig i ≡ len
      → emit_upto keep st.last_match st.offset st.output ≡ ok before
      → take len (drop (st.offset - st.window.base) st.window.buffer) ≡ piece
      → emit_copy keep i st.offset piece before ≡ ok after
      → matched keep g.strong_checksum g.sig g.max_chain_len g.src st i
        ≡ ok (
            again (record {
              window = st.window;
              offset = st.offset + len;
              last_match = st.offset + len;
              weak = st.weak;
              stale = true;
              want_i = i + 1;
              hits = st.hits;
              output = after;
            }))
  unfolding matched
  matched_step st i len piece before after whole sent here copied =
      rw (whole, sent, ◌>>=◌, here, copied) refl

  -- A match sends what lies between, then the block, and goes on behind it.
  pub matched-GoesWell :
      (k : ℕ) (st : Progress (List Instruction)) (i : ℕ)
      → Holds st
      → IsReady g.src g.law g.measured st.window st.offset g.sig.block_length
          (length st.window.buffer)
      → st.offset + g.sig.block_length ≤ g.src.size
      → Enough (suc k) st.window st.offset
      → st.weak ≡ weak_checksum (take g.sig.block_length (drop st.offset g.src.contents))
      → IsFound g.strong_checksum g.sig
          (take g.sig.block_length (drop (st.offset - st.window.base) st.window.buffer))
          st.weak
          i
      → (next : Next (List Instruction)) × (matched keep g.strong_checksum g.sig g.max_chain_len
            g.src st i
          ≡ ok next)
        × GoesWell k next
  matched-GoesWell k st i h ready inside enough current found =
      let here : take g.sig.block_length (drop (st.offset - st.window.base) st.window.buffer)
          ≡ take g.sig.block_length (drop st.offset g.src.contents) =
        Shows-here g.src.contents st.window g.sig.block_length st.offset ready.shows ready.low
          (omega (arith, ready.high)) in
      let long : length (take g.sig.block_length (drop st.offset g.src.contents))
          ≡ g.sig.block_length =
        length-take g.sig.block_length (drop st.offset g.src.contents)
        ∙ omega (arith, length-drop st.offset g.src.contents) in
      let whole : block_length_at g.sig i ≡ g.sig.block_length =
        found.long ∙ ap length here ∙ long in
      let same : strong_matches g.strong_checksum g.sig i
            (take g.sig.block_length (drop st.offset g.src.contents))
          ≡ true =
        rw (← here) found.strong in
      let block_same =
        g.distinct i st.offset (omega (arith, whole)) (rw whole (sym current ∙ sym found.weak_sum))
          (rw whole same) in
      let (before, sent, upto) =
        emit_upto-Upto g.page_bytes g.src.contents g.basis g.sig st.last_match st.offset st.output
          g.paged h.upto h.ahead (omega arith) in
      let (after, copied, upto') =
        emit_copy-Upto g.page_bytes g.src.contents g.basis g.sig i st.offset
          (take g.sig.block_length (drop st.offset g.src.contents)) before upto
          (omega (arith, long)) (omega (arith, long)) (whole ∙ sym long)
          (rw long (block_same ∙ rw whole refl)) in
      let next : Progress (List Instruction) = record {
        window = st.window;
        offset = st.offset + g.sig.block_length;
        last_match = st.offset + g.sig.block_length;
        weak = st.weak;
        stale = true;
        want_i = i + 1;
        hits = st.hits;
        output = after;
      } in
      (
        again next,
        matched_step st i g.sig.block_length _ before after whole sent here copied,
        (
          record {
            shows = h.shows;
            room = h.room;
            upto =
                Upto-at g.page_bytes g.src.contents g.basis g.sig after _ _ (omega (arith, long))
                  upto';
            ahead = omega arith;
            inside = inside;
            current = λ fresh. absurd (ground (arith, fresh));
          },
          inl (match_cost k st enough inside),
        ),
      )
