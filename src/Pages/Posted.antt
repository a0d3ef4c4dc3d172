-- ===== src/Pages/Posted.antt =====
-- A receiver posts a receive for every page of its range, as the sender cuts it.
use rail.Prelude.{
  ℕ, zero, suc, ◌+◌, ◌-◌, ◌%◌, ◌^◌, ◌≤◌, ◌<◌, ◌≡◌, refl, sym, ap, ◌∙◌, true, false, Bool-cases, inl,
  inr, List, [], ◌∷◌, ◌++◌, length, min, ltb, append_assoc, append-nil, arith,
}
use rail.Result.{Result, ok, err}
use rail.Pages.{tag_of, Void}
use rail.Pages.Cutting.{pages, pages-more, pages-done}
use rail.Pages.Receiver.{
  Shore, Posted, PageReceiver, store_queue, store, await_queue, await_writes, or_end, post_one,
  receive_loop,
}

abbrev pub tagged : ℕ → List (ℕ × ℕ) → List (ℕ × ℕ)
tagged base [] = []
tagged base ((at, size) ∷ rest) = (tag_of base at, size) ∷ tagged base rest

or_end-ok :
    (r : PageReceiver × Result Void) (go : PageReceiver → PageReceiver × Result Void) (u : Void)
    → (or_end r go).1 ≡ ok u
    → (v : Void) × (r.1 ≡ ok v) × (or_end r go ≡ go r.0)
or_end-ok (s, ok v) go u h = (v, refl, refl)
or_end-ok (s, err e) go u h = absurd (ground (arith, h))

post_one-posted :
    (l : Shore) (s : PageReceiver) (at take : ℕ) (u : Void)
    → (post_one l s at take).1 ≡ ok u
    → ((post_one l s at take).0.posted ≡ s.posted ++ ((tag_of s.tag_base at, take) ∷ []))
      × ((post_one l s at take).0.tag_base ≡ s.tag_base)
unfolding post_one
post_one-posted l s at take u done = elim (Bool-cases (l.has_home at take)) [
  | inl home ↦ rw home (refl, refl)
  | inr pooled ↦ elim (Bool-cases (l.acquire s.copied)) [
    | inl got ↦ rw (pooled, got) (refl, refl)
    | inr refused ↦ absurd (ground (arith, rw (pooled, refused) at done))
  ]
]

-- What a loop that ends well has posted.
abbrev Posts : Shore → ℕ → ℕ → ℕ → Type 0
Posts l fuel at end =
    (s : PageReceiver) (u : Void)
    → (receive_loop l fuel s at end).1 ≡ ok u
    → (receive_loop l fuel s at end).0.posted
      ≡ s.posted ++ tagged s.tag_base (pages l.page_bytes at end)

round-posted :
    (l : Shore) (fuel keep at take end : ℕ) (s : PageReceiver) (u : Void)
    → Posts l fuel (at + take) end
    → let go : PageReceiver → PageReceiver × Result Void = λ s1.
      or_end
        (await_writes l s1.geometry.write_depth s1)
        (λ s2. or_end (post_one l s2 at take) (λ s3. receive_loop l fuel s3 (at + take) end)) in
      (or_end (store l keep s) go).1 ≡ ok u
      → (or_end (store l keep s) go).0.posted
        ≡ s.posted
          ++ ((tag_of s.tag_base at, take) ∷ tagged s.tag_base (pages l.page_bytes (at + take) end))
unfolding store await_writes
round-posted l fuel keep at take end s u later done =
    let last : PageReceiver → PageReceiver × Result Void =
      λ s3. receive_loop l fuel s3 (at + take) end in
    let posting : PageReceiver → PageReceiver × Result Void =
      λ s2. or_end (post_one l s2 at take) last in
    let writing : PageReceiver → PageReceiver × Result Void =
      λ s1. or_end (await_writes l s1.geometry.write_depth s1) posting in
    let (v, stored, first) = or_end-ok (store l keep s) writing u done in
    let s1 = (store l keep s).0 in
    let done1 = ap (λ r. r.1) (sym first) ∙ done in
    let (w, waited, second) =
      or_end-ok (await_writes l s1.geometry.write_depth s1) posting u done1 in
    let s2 = (await_writes l s1.geometry.write_depth s1).0 in
    let done2 = ap (λ r. r.1) (sym second) ∙ done1 in
    let (x, posted, third) = or_end-ok (post_one l s2 at take) last u done2 in
    let s3 = (post_one l s2 at take).0 in
    let (more, base) = post_one-posted l s2 at take x posted in
    ap (λ r. r.0.posted) (first ∙ second ∙ third)
    ∙ later s3 u (ap (λ r. r.1) (sym third) ∙ done2)
    ∙ ap (λ b. s3.posted ++ tagged b (pages l.page_bytes (at + take) end)) base
    ∙ ap (λ p. p ++ tagged s.tag_base (pages l.page_bytes (at + take) end)) more
    ∙ append_assoc s.posted ((tag_of s.tag_base at, take) ∷ [])
        (tagged s.tag_base (pages l.page_bytes (at + take) end))

pub receive_loop-posted :
    (l : Shore) (fuel at end : ℕ) → 0 < l.page_bytes → l.page_bytes < 2 ^ 32 → Posts l fuel at end
unfolding receive_loop
receive_loop-posted l zero at end pos word s u done = elim (Bool-cases (ltb at end)) [
  | inl more ↦ absurd (ground (arith, rw more at done))
  | inr past ↦
      rw (past, pages-done l.page_bytes at end (ground (arith, past))) (sym (append-nil s.posted))
]
receive_loop-posted l (suc fuel) at end pos word s u done = elim (Bool-cases (ltb at end)) [
  | inr past ↦
      rw (past, pages-done l.page_bytes at end (ground (arith, past))) (sym (append-nil s.posted))
  | inl more ↦
      let take = min l.page_bytes (end - at) in
      let whole : min l.page_bytes (end - at) % 2 ^ 32 ≡ take = omega (arith, word) in
      let keep = (s.geometry.window + (2 ^ 64 - 1)) % 2 ^ 64 in
      rw (more, whole, pages-more l.page_bytes at end pos (ground (arith, more)))
        (round-posted l fuel keep at take end s u
          (receive_loop-posted l fuel (at + take) end pos word) (rw (more, whole) at done))
]

-- Where every receive and every write ends well.
pub record IsCalm (l : Shore) : Type 0 where
  pub acquires : (n : ℕ) → l.acquire n ≡ true
  pub arrives : (at : ℕ) → l.arrived at ≡ ok tt
  pub submits : (at : ℕ) → l.submit_write at ≡ ok tt
  pub writes : (at : ℕ) → l.await_write at ≡ ok tt

pub store_queue-ok :
    (l : Shore) (keep : ℕ) (queue : List Posted) (writes : List ℕ)
    → IsCalm l
    → (store_queue l keep queue writes).2 ≡ ok tt
unfolding store_queue
store_queue-ok l keep [] writes calm = refl
store_queue-ok l keep (p ∷ queue) writes calm = elim (Bool-cases (ltb keep (length (p ∷ queue)))) [
  | inr few ↦ rw few refl
  | inl many ↦ elim (Bool-cases p.direct) [
    | inl direct ↦
        rw (many, calm.arrives p.offset, direct) (store_queue-ok l keep queue writes calm)
    | inr copied ↦
        rw (many, calm.arrives p.offset, copied, calm.submits p.offset)
          (store_queue-ok l keep queue (writes ++ (p.offset ∷ [])) calm)
  ]
]

pub await_queue-ok :
    (l : Shore) (keep : ℕ) (queue : List ℕ) → IsCalm l → (await_queue l keep queue).1 ≡ ok tt
unfolding await_queue
await_queue-ok l keep [] calm = refl
await_queue-ok l keep (at ∷ queue) calm = elim (Bool-cases (ltb keep (length (at ∷ queue)))) [
  | inr few ↦ rw few refl
  | inl many ↦ rw (many, calm.writes at) (await_queue-ok l keep queue calm)
]

post_one-ok :
    (l : Shore) (s : PageReceiver) (at take : ℕ) → IsCalm l → (post_one l s at take).1 ≡ ok tt
unfolding post_one
post_one-ok l s at take calm = elim (Bool-cases (l.has_home at take)) [
  | inl home ↦ rw home refl
  | inr pooled ↦ rw (pooled, calm.acquires s.copied) refl
]

pub or_end-goes :
    (r : PageReceiver × Result Void) (go : PageReceiver → PageReceiver × Result Void)
    → r.1 ≡ ok tt
    → or_end r go ≡ go r.0
or_end-goes (s, ok u) go h = refl
or_end-goes (s, err e) go h = absurd (ground (arith, h))

pub receive_loop-ok :
    (l : Shore) (fuel : ℕ) (s : PageReceiver) (at end : ℕ)
    → 0 < l.page_bytes
    → l.page_bytes < 2 ^ 32
    → IsCalm l
    → end - at ≤ fuel
    → (receive_loop l fuel s at end).1 ≡ ok tt
unfolding receive_loop store await_writes
receive_loop-ok l zero s at end pos word calm enough =
    let past : ltb at end ≡ false = ground (arith, enough) in rw past refl
receive_loop-ok l (suc fuel) s at end pos word calm enough = elim (Bool-cases (ltb at end)) [
  | inr past ↦ rw past refl
  | inl more ↦
      let left : at < end = ground (arith, more) in
      let take = min l.page_bytes (end - at) % 2 ^ 32 in
      let keep = (s.geometry.window + (2 ^ 64 - 1)) % 2 ^ 64 in
      let s1 = (store l keep s).0 in
      let s2 = (await_writes l s1.geometry.write_depth s1).0 in
      let s3 = (post_one l s2 at take).0 in
      let last : PageReceiver → PageReceiver × Result Void =
        λ s3. receive_loop l fuel s3 (at + take) end in
      let posting : PageReceiver → PageReceiver × Result Void =
        λ s2. or_end (post_one l s2 at take) last in
      let writing : PageReceiver → PageReceiver × Result Void =
        λ s1. or_end (await_writes l s1.geometry.write_depth s1) posting in
      rw more (
        ap (λ r. r.1)
          (or_end-goes (store l keep s) writing (store_queue-ok l keep s.receiving s.writes calm)
            ∙ or_end-goes (await_writes l s1.geometry.write_depth s1) posting
                (await_queue-ok l s1.geometry.write_depth s1.writes calm)
            ∙ or_end-goes (post_one l s2 at take) last (post_one-ok l s2 at take calm))
        ∙ receive_loop-ok l fuel s3 (at + take) end pos word calm
            (omega (arith, pos, word, enough, left)))
]
