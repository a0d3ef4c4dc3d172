-- ===== src/Pages/Agreed.antt =====
-- A whole range: what the receiver posts, and that it is what the sender sends.
use rail.Prelude.{
  ℕ, ◌+◌, ◌-◌, ◌%◌, ◌^◌, ◌<◌, ◌≡◌, refl, sym, ap, ◌∙◌, false, List, [], ◌∷◌, ◌++◌, arith,
}
use rail.Result.{Result, ok, err}
use rail.Pages.{tag_of, Void}
use rail.Pages.Cutting.{pages}
use rail.Pages.Sender.{Fabric, PageSender, stream}
use rail.Pages.Filling.{starts, tags}
use rail.Pages.Sent.{stream-sent}
use rail.Pages.Receiver.{
  Shore, PageReceiver, store, await_writes, or_end, receive_loop, landed_with, receive_range, land,
}
use rail.Pages.Posted.{
  tagged, IsCalm, receive_loop-posted, receive_loop-ok, store_queue-ok, await_queue-ok, or_end-goes,
}

landed_with-ok :
    (n : ℕ) (r : PageReceiver × Result Void)
    → r.1 ≡ ok tt
    → ((landed_with n r).1 ≡ ok n) × ((landed_with n r).0 ≡ r.0)
landed_with-ok n (s, ok u) h = (refl, refl)
landed_with-ok n (s, err e) h = absurd (ground (arith, h))

pub land-posted :
    (l : Shore) (s : PageReceiver) (offset count : ℕ)
    → 0 < l.page_bytes
    → l.page_bytes < 2 ^ 32
    → offset + count < 2 ^ 64
    → s.posted ≡ []
    → IsCalm l
    → ((land l s offset count).1 ≡ ok count)
      × ((land l s offset count).0.posted
          ≡ tagged s.tag_base (pages l.page_bytes offset (offset + count)))
unfolding land receive_range store await_writes
land-posted l s offset count pos word inside none_posted calm =
    let end = (offset + count) % 2 ^ 64 in
    let same : end ≡ offset + count = omega (arith, inside) in
    let looped = receive_loop l (end - offset) s offset end in
    let went = receive_loop-ok l (end - offset) s offset end pos word calm (omega arith) in
    let waiting : PageReceiver → PageReceiver × Result Void = λ s2. await_writes l 0 s2 in
    let storing : PageReceiver → PageReceiver × Result Void = λ s1. or_end (store l 0 s1) waiting in
    let stored = (store l 0 looped.0).0 in
    let all =
      or_end-goes looped storing went
      ∙ or_end-goes (store l 0 looped.0) waiting
          (store_queue-ok l 0 looped.0.receiving looped.0.writes calm) in
    let (result, state) =
      landed_with-ok count (or_end looped storing)
        (ap (λ r. r.1) all ∙ await_queue-ok l 0 stored.writes calm) in
    (
      result,
      ap (λ r. r.posted) state
          ∙ ap (λ r. r.0.posted) all
          ∙ receive_loop-posted l (end - offset) offset end pos word s tt went
          ∙ ap (λ p. p ++ tagged s.tag_base (pages l.page_bytes offset end)) none_posted
          ∙ ap (λ e. tagged s.tag_base (pages l.page_bytes offset e)) same,
    )

starts-tagged : (base : ℕ) (cut : List (ℕ × ℕ)) → starts (tagged base cut) ≡ tags base (starts cut)
starts-tagged base [] = refl
starts-tagged base (p ∷ cut) = ap (λ t. tag_of base p.0 ∷ t) (starts-tagged base cut)

-- A sender and a receiver with the same size of pages and the same base of tags work on the same
-- range. Where the sender does not give up and every receive and write ends well, the tags under
-- which pages were sent are those under which receives were posted, in the same order: none is left
-- waiting, also where reads fail.
pub stream-land :
    (f : Fabric) (l : Shore) (s : PageSender) (r : PageReceiver) (offset count : ℕ)
    → 0 < f.page_bytes
    → f.page_bytes < 2 ^ 32
    → l.page_bytes ≡ f.page_bytes
    → s.tag_base ≡ r.tag_base
    → 0 < s.geometry.read_ahead
    → offset + count < 2 ^ 64
    → s.sent ≡ []
    → s.prefetch ≡ []
    → r.posted ≡ []
    → IsCalm l
    → (stream f s offset count).0.left_unsent ≡ false
    → starts (stream f s offset count).0.sent ≡ starts (land l r offset count).0.posted
stream-land f l s r offset count pos word size base ahead inside none_sent none_read none_posted
      calm kept =
    let posted =
      land-posted l r offset count (omega (arith, pos, size)) (omega (arith, word, size)) inside
        none_posted calm in
    stream-sent f s offset count pos word ahead inside none_sent none_read kept
    ∙ ap (λ b. tags b (starts (pages f.page_bytes offset (offset + count)))) base
    ∙ ap (λ p. tags r.tag_base (starts (pages p offset (offset + count)))) (sym size)
    ∙ sym (starts-tagged r.tag_base (pages l.page_bytes offset (offset + count)))
    ∙ ap starts (sym posted.1)
