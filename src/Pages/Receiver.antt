-- ===== src/Pages/Receiver.antt =====
-- PageReceiver of src/stream/page-stream.cc. The sink and the channel are a parameter. `posted` is
-- the tag and the length of every receive that was posted, in order.
use rail.Prelude.{
  ℕ, zero, suc, ◌+◌, ◌-◌, ◌%◌, ◌^◌, Bool, true, false, List, [], ◌∷◌, ◌++◌, length, min, ltb,
  if◌then◌else◌,
}
use rail.Result.{Result, ok, err, fail_message}
use rail.Pages.{StreamGeometry, tag_of, Void}

-- The page size of the pool; whether the sink has a home for an offset and a length; whether the
-- pool gives a page, after so many; how the receive of a page ends; and the start and the end of
-- the write of one.
pub record Shore : Type 0 where
  pub page_bytes : ℕ
  pub has_home : ℕ → ℕ → Bool
  pub acquire : ℕ → Bool
  pub arrived : ℕ → Result Void
  pub submit_write : ℕ → Result Void
  pub await_write : ℕ → Result Void

pub record Posted : Type 0 where
  pub direct : Bool
  pub offset : ℕ
  pub size : ℕ

-- PageReceiver, with the Direct and Copied of the memory's stats as far as it counts them.
pub record PageReceiver : Type 0 where
  pub tag_base : ℕ
  pub geometry : StreamGeometry
  pub receiving : List Posted
  pub writes : List ℕ
  pub direct : ℕ
  pub copied : ℕ
  pub posted : List (ℕ × ℕ)

-- What store does with the page at the front once its receive has ended, and the others later.
abbrev pub Stored : Type 0
Stored = List Posted × List ℕ × Result Void

abbrev pub after_submit : Result Void → List Posted → List ℕ → Stored → Stored
after_submit (ok u) rest writes later = later
after_submit (err e) rest writes later = (rest, writes, err e)

abbrev pub after_arrived : Result Void → List Posted → List ℕ → Stored → Stored
after_arrived (ok u) rest writes later = later
after_arrived (err e) rest writes later = (rest, writes, err e)

unfoldable pub store_queue : Shore → ℕ → List Posted → List ℕ → Stored
store_queue l keep [] writes = ([], writes, ok tt)
store_queue l keep (p ∷ rest) writes =
    let later_direct = store_queue l keep rest writes in
    let later_copied = store_queue l keep rest (writes ++ (p.offset ∷ [])) in
    if ltb keep (length (p ∷ rest))
    then after_arrived (l.arrived p.offset) rest writes (
        if p.direct
        then later_direct
        else after_submit (l.submit_write p.offset) rest writes later_copied)
    else (p ∷ rest, writes, ok tt)

unfoldable pub store : Shore → ℕ → PageReceiver → PageReceiver × Result Void
store l keep s =
    let stored = store_queue l keep s.receiving s.writes in
    (record s { receiving = stored.0; writes = stored.1 }, stored.2)

abbrev pub after_written : Result Void → List ℕ → List ℕ × Result Void → List ℕ × Result Void
after_written (ok u) rest later = later
after_written (err e) rest later = (rest, err e)

unfoldable pub await_queue : Shore → ℕ → List ℕ → List ℕ × Result Void
await_queue l keep [] = ([], ok tt)
await_queue l keep (at ∷ rest) =
    let later = await_queue l keep rest in
    if ltb keep (length (at ∷ rest))
    then after_written (l.await_write at) rest later
    else (at ∷ rest, ok tt)

unfoldable pub await_writes : Shore → ℕ → PageReceiver → PageReceiver × Result Void
await_writes l keep s =
    let awaited = await_queue l keep s.writes in (record s { writes = awaited.0 }, awaited.1)

abbrev pub or_end :
    PageReceiver × Result Void
    → (PageReceiver → PageReceiver × Result Void)
    → PageReceiver × Result Void
or_end (s, ok u) go = go s
or_end (s, err e) go = (s, err e)

-- Channel.recv
abbrev pub post : PageReceiver → Posted → PageReceiver
post s p = record s {
  receiving = s.receiving ++ (p ∷ []);
  posted = s.posted ++ ((tag_of s.tag_base p.offset, p.size) ∷ []);
}

abbrev pub count_direct : PageReceiver → PageReceiver
count_direct s = record s { direct = s.direct + 1 }

abbrev pub count_copied : PageReceiver → PageReceiver
count_copied s = record s { copied = s.copied + 1 }

-- A round of run, from Take on.
unfoldable pub post_one : Shore → PageReceiver → ℕ → ℕ → PageReceiver × Result Void
post_one l s at take =
    if l.has_home at take
    then (count_direct (post s (record { direct = true; offset = at; size = take })), ok tt)
    else if l.acquire s.copied
    then (count_copied (post s (record { direct = false; offset = at; size = take })), ok tt)
    else (s, fail_message "out of registered memory for a transfer page")

-- The loop of run, where a round posts a page.
unfoldable pub receive_loop : Shore → ℕ → PageReceiver → ℕ → ℕ → PageReceiver × Result Void
receive_loop l zero s at end = if ltb at end then (s, fail_message "out of fuel") else (s, ok tt)
receive_loop l (suc fuel) s at end =
    let take = min l.page_bytes (end - at) % 2 ^ 32 in
    let keep = (s.geometry.window + (2 ^ 64 - 1)) % 2 ^ 64 in
    let round = or_end (store l keep s) (λ s1.
      or_end (await_writes l s1.geometry.write_depth s1)
        (λ s2. or_end (post_one l s2 at take) (λ s3. receive_loop l fuel s3 (at + take) end))) in
    if ltb at end then round else (s, ok tt)

abbrev pub landed_with : ℕ → PageReceiver × Result Void → PageReceiver × Result ℕ
landed_with n (s, ok u) = (s, ok n)
landed_with n (s, err e) = (s, err e)

unfoldable pub receive_range : Shore → PageReceiver → ℕ → ℕ → PageReceiver × Result ℕ
receive_range l s offset count =
    let end = (offset + count) % 2 ^ 64 in
    landed_with count (
      or_end (receive_loop l (end - offset) s offset end)
        (λ s1. or_end (store l 0 s1) (λ s2. await_writes l 0 s2)))

-- land, with quiesce, which waits for what is received or written and lets it go.
unfoldable pub land : Shore → PageReceiver → ℕ → ℕ → PageReceiver × Result ℕ
land l s offset count =
    let ran = receive_range l s offset count in
    (record ran.0 { receiving = []; writes = [] }, ran.1)
