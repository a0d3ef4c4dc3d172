-- ===== src/App/Differ/Ending.antt =====
-- The scan from its beginning to its end: what it sends rebuilds the source.
use rail.Prelude.{
  ℕ, ◌+◌, ◌*◌, ◌<◌, ◌≤◌, ◌≡◌, refl, ap, ◌∙◌, Bool-cases, inl, inr, true, All, ◌||◌, ◌==◌, ltb, some,
  List, [], length, replicate, min, length-replicate, arith,
}
use rail.Prelude.Pieces.{take_all}
use rail.Result.{ok, ◌>>=◌}
use rail.Proto.Bytes.{Bytes, IsByte}
use rail.Proto.Message.{Signature}
use rail.Fs.Reader.{FileReader, Serves}
use rail.App.Differ.{Instruction, Hits, build_hash_table, max_window}
use rail.App.Differ.Scan.{Window, Output, Progress, fill_window, scan, finish_scan, diff}
use rail.App.Differ.Rebuild.{rebuild}
use rail.App.Differ.Windows.{fill_window-IsFresh}
use rail.App.Differ.Emitting.{keep, Upto, Upto-at, emit_literal-Upto}
use rail.App.Differ.Whole.{scan-Holds}
use rail.App.Differ.Rounds.{Distinguishes, Setting, Holds}
use rail.App.Differ.Last.{finish_scan-Upto}

module _ (g : Setting) where
  -- The first window shows the source from its front on.
  delta-Upto :
      (hits : Hits) (out : Output (List Instruction))
      → Upto g.page_bytes g.src.contents g.basis g.sig out 0
      → (window : Window) × (fill_window g.src
            (record { buffer = replicate (min max_window g.src.size) 0; base = 0; len = 0 })
            0
          ≡ ok window)
        × (hits' : Hits) × (out' : Output (List Instruction)) × (st : Progress (List Instruction))
        × (scan keep g.strong_checksum g.sig g.max_chain_len g.src
              (2 * g.src.size + 2)
              (build_hash_table g.sig)
              (record {
                window = window;
                offset = 0;
                last_match = 0;
                weak = 0;
                stale = true;
                want_i = 0;
                hits = hits;
                output = out;
              })
            ≡ ok st)
        × (finish_scan keep g.strong_checksum g.sig g.max_chain_len g.src st ≡ ok (hits', out'))
        × Upto g.page_bytes g.src.contents g.basis g.sig out' g.src.size
  delta-Upto hits out h =
      let start : Window = record {
        buffer = replicate (min max_window g.src.size) 0;
        base = 0;
        len = 0;
      } in
      let (window, filled, fresh) =
        fill_window-IsFresh g.src g.law g.measured start 0 (omega arith) in
      let first : Progress (List Instruction) = record {
        window = window;
        offset = 0;
        last_match = 0;
        weak = 0;
        stale = true;
        want_i = 0;
        hits = hits;
        output = out;
      } in
      let holds : Holds g first = record {
        shows = fresh.shows;
        room = fresh.room_kept ∙ length-replicate (min max_window g.src.size) 0;
        upto = h;
        ahead = omega arith;
        inside = omega arith;
        current = λ fresh. absurd (ground (arith, fresh));
      } in
      let (st, scanned, kept) =
        scan-Holds g (2 * g.src.size + 2) (build_hash_table g.sig) first holds
          (inl (omega arith)) in
      let (out', finished, upto) = finish_scan-Upto g st kept in
      (window, filled, st.hits, out', st, scanned, finished, upto)

-- The instructions that a scan of a source emits, applied in their order to a file written from its
-- front on, rebuild the source from the basis: none leaves a gap or overwrites, none names a block
-- that is not there, and no literal is longer than a page. The scan comes to its end for every source
-- of bytes that is served as it was measured, every signature whose blocks are shorter than the
-- window, the empty one and the one with blocks of no length among them, every bound on the chains
-- and pages as long as the window, where no stretch of this source has both the weak sum and the
-- compared part of the strong checksum of a block of the basis and is not that block.
pub diff-rebuild :
    (strong_checksum : Bytes → Bytes) (sig : Signature) (max_chain_len page_bytes : ℕ)
    (src : FileReader) (basis : Bytes) (hits : Hits) (rep : Output (List Instruction))
    → Serves src
    → src.size ≡ length src.contents
    → All IsByte src.contents
    → Distinguishes strong_checksum sig src.contents basis
    → sig.block_length < max_window
    → max_window ≤ page_bytes
    → rep.sent ≡ []
    → (hits' : Hits) × (out : Output (List Instruction)) × (diff keep strong_checksum sig
          max_chain_len src hits rep
        ≡ ok (hits', out))
      × (rebuild page_bytes src.contents basis sig out.sent [] ≡ some src.contents)
unfolding diff rebuild
diff-rebuild strong_checksum sig max_chain_len page_bytes src basis hits rep law measured bytes
      distinct short paged fresh =
    elim (Bool-cases
      ((length sig.sums == 0) || (sig.block_length == 0) || ltb src.size sig.block_length)) [
        | inl plain ↦
            let (out, sent, upto) =
              emit_literal-Upto page_bytes src.contents basis sig src.size 0 src.size begun paged
                (omega arith) start (omega (arith, measured)) in
            (
              hits,
              out,
              rw (plain, sent, ◌>>=◌) refl,
              all out (
                  Upto-at page_bytes src.contents basis sig out (0 + src.size) src.size
                    (omega arith) upto),
            )
        | inr delta ↦
            let g : Setting = record {
              strong_checksum = strong_checksum;
              sig = sig;
              max_chain_len = max_chain_len;
              src = src;
              basis = basis;
              law = law;
              measured = measured;
              bytes = bytes;
              page_bytes = page_bytes;
              paged = paged;
              distinct = distinct;
              some_block = ground (arith, delta);
              short_block = short;
              fits = ground (arith, delta);
            } in
            let (window, filled, hits', out, st, scanned, finished, upto) =
              delta-Upto g hits begun start in
            (hits', out, rw (delta, filled, ◌>>=◌, scanned, finished) refl, all out upto)
      ]
  where
    begun : Output (List Instruction)
    begun = record {
      sent = rep.sent;
      dst_cursor = 0;
      literal_bytes = rep.literal_bytes;
      matched_bytes = rep.matched_bytes;
    }

    start : Upto page_bytes src.contents basis sig begun 0
    start = record { rebuilt = rw fresh refl; cursor = refl; within = omega arith }

    all :
        (out : Output (List Instruction))
        → Upto page_bytes src.contents basis sig out src.size
        → rebuild page_bytes src.contents basis sig out.sent [] ≡ some src.contents
    all out upto = upto.rebuilt ∙ ap some (take_all src.size src.contents (omega (arith, measured)))
