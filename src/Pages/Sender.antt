-- ===== src/Pages/Sender.antt =====
-- PageSender of src/stream/page-stream.cc. The source and the channel are a parameter. What a page
-- holds is not part of the state; `sent` is the tag and the size of every page that was sent, in
-- order.
use rail.Prelude.{
  ℕ, zero, suc, ◌+◌, ◌-◌, ◌%◌, ◌^◌, Bool, true, false, ◌&&◌, ◌||◌, not, List, [], ◌∷◌, ◌++◌, length,
  min, ltb, if◌then◌else◌,
}
use rail.Result.{Result, ok, err, fail_message}
use rail.Pages.{StreamGeometry, tag_of, Void}

-- The page size of the pool; whether the source has a page of its own for an offset and a length;
-- whether the pool gives a page, after so many; the start and the end of a read, of an offset and a
-- length; and how the send of a page ends.
pub record Fabric : Type 0 where
  pub page_bytes : ℕ
  pub has_own : ℕ → ℕ → Bool
  pub acquire : ℕ → Bool
  pub submit_read : ℕ → ℕ → Result Void
  pub await_read : ℕ → ℕ → Result ℕ
  pub landed : ℕ → Result Void

-- Buf or Direct with its size, which Length is for one of the pool, Key and Failed.
pub record Reading : Type 0 where
  pub direct : Bool
  pub key : ℕ
  pub size : ℕ
  pub failed : Bool

pub record PageSender : Type 0 where
  pub tag_base : ℕ
  pub geometry : StreamGeometry
  pub flip_one_bit : Bool
  pub abort_after_pages : ℕ
  pub refuse_send_after_pages : ℕ
  pub shipped : ℕ
  pub left_unsent : Bool
  pub pooled : ℕ
  pub failure : Result Void
  pub prefetch : List Reading
  pub in_flight : List ℕ
  pub sent : List (ℕ × ℕ)

abbrev pub is_empty {ℓ} : {A : Type ℓ} → List A → Bool
is_empty [] = true
is_empty (x ∷ xs) = false

-- if (Failure) Failure = ...
abbrev pub note_failure : Result Void → Result Void → Result Void
note_failure (err first) now = err first
note_failure (ok u) now = now

abbrev pub is_err : Result Void → Bool
is_err (ok u) = false
is_err (err e) = true

abbrev pub push_reading : PageSender → Reading → PageSender
push_reading s r = record s { prefetch = s.prefetch ++ (r ∷ []) }

-- One round of fill on a page of the pool: the state, the cursor and whether the round failed.
unfoldable pub fill_pooled : Fabric → PageSender → ℕ → ℕ → PageSender × ℕ × Result Void
fill_pooled f s cursor end =
    let take = min f.page_bytes (end - cursor) % 2 ^ 32 in
    let abort = ltb 0 s.abort_after_pages && not (ltb s.pooled s.abort_after_pages) in
    let started =
      if abort
      then fail_message "stream aborted before reading a page"
      else f.submit_read cursor take in
    let reading : Reading = record {
      direct = false;
      key = cursor;
      size = take;
      failed = is_err started;
    } in
    let noted = record s { pooled = s.pooled + 1; failure = note_failure s.failure started } in
    if f.acquire s.pooled
    then (push_reading noted reading, cursor + take, ok tt)
    else (s, cursor, fail_message "out of registered memory for a transfer page")

unfoldable pub fill_one : Fabric → PageSender → ℕ → ℕ → PageSender × ℕ × Result Void
fill_one f s cursor end =
    let take = min f.page_bytes (end - cursor) in
    if not s.flip_one_bit && f.has_own cursor take
    then (
      push_reading s (record { direct = true; key = cursor; size = take; failed = false }),
      cursor + take,
      ok tt,
    )
    else fill_pooled f s cursor end

abbrev pub unless_failed :
    PageSender × ℕ × Result Void → PageSender × ℕ × Result Void → PageSender × ℕ × Result Void
unless_failed (s, cursor, ok u) rest = rest
unless_failed (s, cursor, err e) rest = (s, cursor, err e)

-- while (Prefetch.size() < G.ReadAhead && Cursor < End), where a round adds to Prefetch.
unfoldable pub fill_loop : Fabric → ℕ → PageSender → ℕ → ℕ → PageSender × ℕ × Result Void
fill_loop f zero s cursor end = (s, cursor, ok tt)
fill_loop f (suc fuel) s cursor end =
    let one = fill_one f s cursor end in
    let rest = fill_loop f fuel one.0 one.1 end in
    if ltb (length s.prefetch) s.geometry.read_ahead && ltb cursor end
    then unless_failed one rest
    else (s, cursor, ok tt)

unfoldable pub fill : Fabric → PageSender → ℕ → ℕ → PageSender × ℕ × Result Void
fill f s cursor end = fill_loop f s.geometry.read_ahead s cursor end

abbrev pub after_landed : Result Void → List ℕ → List ℕ × Result Void → List ℕ × Result Void
after_landed (ok u) rest later = later
after_landed (err e) rest later = (rest, err e)

unfoldable pub drain_queue : Fabric → ℕ → List ℕ → List ℕ × Result Void
drain_queue f keep [] = ([], ok tt)
drain_queue f keep (key ∷ rest) =
    let later = drain_queue f keep rest in
    if ltb keep (length (key ∷ rest))
    then after_landed (f.landed key) rest later
    else (key ∷ rest, ok tt)

unfoldable pub drain : Fabric → ℕ → PageSender → PageSender × Result Void
drain f keep s =
    let drained = drain_queue f keep s.in_flight in (record s { in_flight = drained.0 }, drained.1)

-- readOrZero: how much the page holds, and the failure.
abbrev pub got_or_zero : Result Void → ℕ → Result ℕ → ℕ × Result Void
got_or_zero failure size (ok got) = (got, failure)
got_or_zero failure size (err e) = (size, note_failure failure (err e))

abbrev pub read_or_zero : Fabric → Result Void → Reading → ℕ × Result Void
read_or_zero f failure r =
    if r.failed then (r.size, failure) else got_or_zero failure r.size (f.await_read r.key r.size)

-- shipReady, of the first of Prefetch and the others.
unfoldable pub ship : Fabric → PageSender → Reading → List Reading → PageSender
ship f s r rest =
    let got : ℕ × Result Void =
      if r.direct then (r.size, s.failure) else read_or_zero f s.failure r in
    let size = min r.size got.0 in
    record s {
      shipped = s.shipped + 1;
      failure = got.1;
      prefetch = rest;
      in_flight = s.in_flight ++ (r.key ∷ []);
      sent = s.sent ++ ((tag_of s.tag_base r.key, size) ∷ []);
      flip_one_bit = s.flip_one_bit && (r.direct || not (ltb 8 size));
    }

unfoldable pub ship_front : Fabric → PageSender → List Reading → PageSender × Result Void
ship_front f s [] = (s, ok tt)
ship_front f s (r ∷ rest) =
    if ltb 0 s.refuse_send_after_pages && not (ltb s.shipped s.refuse_send_after_pages)
    then (s, fail_message "the fabric refused a send")
    else (ship f s r rest, ok tt)

unfoldable pub ship_ready : Fabric → PageSender → PageSender × Result Void
ship_ready f s = ship_front f s s.prefetch

-- An error is passed on by giveUp.
abbrev pub or_give_up :
    PageSender × Result Void → (PageSender → PageSender × Result Void) → PageSender × Result Void
or_give_up (s, ok u) go = go s
or_give_up (s, err e) go = (record s { left_unsent = true }, err e)

-- The loop of run, where a round ships a page.
unfoldable pub run_loop : Fabric → ℕ → PageSender → ℕ → ℕ → PageSender × Result Void
run_loop f zero s cursor end = (s, fail_message "out of fuel")
run_loop f (suc fuel) s cursor end =
    let filled = fill f s cursor end in
    let keep = (s.geometry.window + (2 ^ 64 - 1)) % 2 ^ 64 in
    let round =
      or_give_up (filled.0, filled.2)
        (λ s1.
          if is_empty s1.prefetch
          then (s1, ok tt)
          else or_give_up (drain f keep s1)
              (λ s2. or_give_up (ship_ready f s2) (λ s3. run_loop f fuel s3 filled.1 end))) in
    if ltb cursor end || not (is_empty s.prefetch) then round else (s, ok tt)

abbrev pub ended_with : ℕ → PageSender × Result Void → PageSender × Result ℕ
ended_with n (s, ok u) = (s, ok n)
ended_with n (s, err e) = (s, err e)

-- run behind its loop
abbrev pub finish_run : Fabric → PageSender × Result Void → PageSender × Result Void
finish_run f (s, err e) = (s, err e)
finish_run f (s, ok u) = or_give_up (drain f 0 s) (λ s1. (s1, s1.failure))

unfoldable pub run : Fabric → PageSender → ℕ → ℕ → PageSender × Result ℕ
run f s offset length =
    let end = (offset + length) % 2 ^ 64 in
    ended_with length (finish_run f (run_loop f (suc (end - offset)) s offset end))

-- stream, with quiesce, which waits for what is in flight or read and lets it go.
unfoldable pub stream : Fabric → PageSender → ℕ → ℕ → PageSender × Result ℕ
stream f s offset length =
    let ran = run f s offset length in (record ran.0 { prefetch = []; in_flight = [] }, ran.1)
