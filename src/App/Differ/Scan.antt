-- ===== src/App/Differ/Scan.antt =====
-- The rest of src/app/differ.cc: the window over the source, what it emits, and the scan. A sink is
-- a function on a state of its own.
use rail.Prelude.{
  ℕ, zero, suc, ◌+◌, ◌-◌, ◌*◌, Bool, true, false, ◌&&◌, ◌||◌, not, Option, none, some, [], ◌++◌,
  length, get_or, replicate, take, drop, ltb, leb, ◌==◌, if◌then◌else◌, min,
}
use rail.Result.{Result, ok, fail_message, ◌>>=◌}
use rail.Proto.Bytes.{Bytes}
use rail.Proto.Message.{Signature}
use rail.Fs.Reader
use rail.Fs.Reader.{FileReader}
use rail.App.Checksum.{weak_checksum, roll_weak}
use rail.App.Signature.{block_length_at}
use rail.App.Differ.{
  Instruction, copy, literal, Table, Hits, lookup, build_hash_table, strong_matches, max_window,
}

-- Window, WindowBase and WindowLen
pub record Window : Type 0 where
  pub buffer : Bytes
  pub base : ℕ
  pub len : ℕ

-- The sink's state, DstCursor, and the counters of the Report.
pub record Output {ℓ} (S : Type ℓ) : Type ℓ where
  pub sent : S
  pub dst_cursor : ℕ
  pub literal_bytes : ℕ
  pub matched_bytes : ℕ

-- The variables of diff's loop.
pub record Progress {ℓ} (S : Type ℓ) : Type ℓ where
  pub window : Window
  pub offset : ℕ
  pub last_match : ℕ
  pub weak : ℕ
  pub stale : Bool
  pub want_i : ℕ
  pub hits : Hits
  pub output : Output S

-- What a round of a loop says: break, or go on.
pub data Next {ℓ} (S : Type ℓ) : Type ℓ where
  stop again : Progress S → Next S

unfoldable pub fill_window : FileReader → Window → ℕ → Result Window
fill_window src win at = do
  view ← Reader.read src (min (length win.buffer) (src.size - at)) at
  ok (record { buffer = view ++ drop (length view) win.buffer; base = at; len = length view })

unfoldable pub ensure_window : FileReader → ℕ → Window → ℕ → Result Window
ensure_window src block win at =
    if leb win.base at && leb (min (at + block) src.size) (win.base + win.len)
    then ok win
    else fill_window src win at

module _ {ℓ} {S : Type ℓ} (sink : Instruction → S → Result S) where
  -- while (Length > 0): each round takes a byte at least.
  unfoldable pub emit_literal : ℕ → ℕ → ℕ → Output S → Result (Output S)
  emit_literal fuel offset zero out = ok out
  emit_literal zero offset (suc length) out = fail_message "out of fuel"
  emit_literal (suc fuel) offset (suc length) out = do
    let n = min (suc length) max_window
    sent ← sink (literal offset out.dst_cursor n) out.sent
    emit_literal fuel (offset + n) (suc length - n) (record {
      sent = sent;
      dst_cursor = out.dst_cursor + n;
      literal_bytes = out.literal_bytes + n;
      matched_bytes = out.matched_bytes;
    })

  unfoldable pub emit_copy : ℕ → ℕ → Bytes → Output S → Result (Output S)
  emit_copy index src_offset bytes out = do
    sent ← sink (copy index src_offset out.dst_cursor (length bytes) bytes) out.sent
    ok (record {
      sent = sent;
      dst_cursor = out.dst_cursor + length bytes;
      literal_bytes = out.literal_bytes;
      matched_bytes = out.matched_bytes + length bytes;
    })

  -- if (To > From) emitLiteral(Out, From, To - From, Rep)
  unfoldable pub emit_upto : ℕ → ℕ → Output S → Result (Output S)
  emit_upto from to out =
      if ltb from to then emit_literal (to - from) from (to - from) out else ok out

  module _ (strong_checksum : Bytes → Bytes) (sig : Signature) (max_chain_len : ℕ)
      (src : FileReader) where
    -- matchFinalBlock, with whether it matched.
    unfoldable pub match_final_block : ℕ → Output S → Result (Bool × Output S)
    match_final_block from out =
        let last = length sig.sums - 1 in
        let last_len = block_length_at sig last in
        let at = src.size - last_len in
        let tail_read = do
          tail ← Reader.read src last_len at
          let matches =
              (length tail == last_len)
              && (weak_checksum tail
                  == (get_or sig.sums last (record { weak = 0; strong = [] })).weak)
              && strong_matches strong_checksum sig last tail
          if not matches then ok (false, out) else do
            before ← emit_upto from at out
            after ← emit_copy last at tail before
            ok (true, after)
        in if (last_len == 0) || leb sig.block_length last_len || ltb src.size last_len
          then ok (false, out)
          else if ltb at from
          then ok (false, out)
          else tail_read

    -- The branch of the loop where lookup found no block.
    unfoldable pub missed : Progress S → Result (Next S)
    missed st =
        let block = sig.block_length in
        let w = st.offset - st.window.base in
        let refill = do
          window ← fill_window src st.window st.offset
          ok (
              again (record {
                window = window;
                offset = st.offset;
                last_match = st.last_match;
                weak = st.weak;
                stale = true;
                want_i = st.want_i;
                hits = st.hits;
                output = st.output;
              }))
        in if leb src.size (st.offset + block)
          then ok (stop st)
          else if leb st.window.len (w + block)
          then refill
          else ok (
              again (record {
                window = st.window;
                offset = st.offset + 1;
                last_match = st.last_match;
                weak =
                    roll_weak st.weak (get_or st.window.buffer w 0)
                      (get_or st.window.buffer (w + block) 0) block;
                stale = st.stale;
                want_i = st.want_i;
                hits = st.hits;
                output = st.output;
              }))

    -- The branch where it found one.
    unfoldable pub matched : Progress S → ℕ → Result (Next S)
    matched st i = do
      let len = block_length_at sig i
      before ← emit_upto st.last_match st.offset st.output
      after ←
          emit_copy i st.offset (take len (drop (st.offset - st.window.base) st.window.buffer))
            before
      ok (
          again (record {
            window = st.window;
            offset = st.offset + len;
            last_match = st.offset + len;
            weak = st.weak;
            stale = true;
            want_i = i + 1;
            hits = st.hits;
            output = after;
          }))

    unfoldable pub after_lookup : Progress S → Option ℕ → Result (Next S)
    after_lookup st none = missed st
    after_lookup st (some i) = matched st i

    unfoldable pub look_at : Table → Progress S → Window → Result (Next S)
    look_at table st window =
        let here = take sig.block_length (drop (st.offset - window.base) window.buffer) in
        let weak = if st.stale then weak_checksum here else st.weak in
        let found = lookup strong_checksum sig table weak here st.want_i max_chain_len st.hits in
        after_lookup
          (record {
            window = window;
            offset = st.offset;
            last_match = st.last_match;
            weak = weak;
            stale = false;
            want_i = st.want_i;
            hits = found.1;
            output = st.output;
          })
          found.0

    -- One round of the loop, its condition included.
    unfoldable pub round : Table → Progress S → Result (Next S)
    round table st =
        let body = do
          window ← ensure_window src sig.block_length st.window st.offset
          look_at table st window
        in if leb (st.offset + sig.block_length) src.size then body else ok (stop st)

    -- What follows a round.
    unfoldable pub goes_on : (Progress S → Result (Progress S)) → Next S → Result (Progress S)
    goes_on k (stop st) = ok st
    goes_on k (again st) = k st

    unfoldable pub scan : ℕ → Table → Progress S → Result (Progress S)
    scan zero table st = fail_message "out of fuel"
    scan (suc fuel) table st = do next ← round table st; goes_on (scan fuel table) next

    -- What is left after the loop.
    unfoldable pub finish_scan : Progress S → Result (Hits × Output S)
    finish_scan st =
        let tail = do
          last ← match_final_block st.last_match st.output
          out ← (if last.0 then ok last.1 else emit_upto st.last_match src.size last.1)
          ok (st.hits, out)
        in if ltb st.last_match src.size then tail else ok (st.hits, st.output)

    -- A round advances the offset, or it fills the window once before it does.
    unfoldable pub diff : Hits → Output S → Result (Hits × Output S)
    diff hits rep =
        let out : Output S = record {
          sent = rep.sent;
          dst_cursor = 0;
          literal_bytes = rep.literal_bytes;
          matched_bytes = rep.matched_bytes;
        } in
        let whole = do out' ← emit_literal src.size 0 src.size out; ok (hits, out')
        in let delta = do
          window ←
              fill_window src
                (record { buffer = replicate (min max_window src.size) 0; base = 0; len = 0 }) 0
          st ← scan (2 * src.size + 2) (build_hash_table sig) (record {
            window = window;
            offset = 0;
            last_match = 0;
            weak = 0;
            stale = true;
            want_i = 0;
            hits = hits;
            output = out;
          })
          finish_scan st
          in if (length sig.sums == 0) || (sig.block_length == 0) || ltb src.size sig.block_length
            then whole
            else delta
