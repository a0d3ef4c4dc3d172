-- ===== src/Pages/Sent.antt =====
-- Whichever reads fail, a sender that does not give up sends a page under every tag of its range.
use rail.Prelude.{
  ℕ, zero, suc, ◌+◌, ◌-◌, ◌%◌, ◌^◌, ◌≤◌, ◌<◌, ◌≡◌, refl, sym, ap, ◌∙◌, true, false, ◌&&◌, ◌||◌, not,
  Bool-cases, inl, inr, List, [], ◌∷◌, ◌++◌, length, min, ltb, if◌then◌else◌, append_assoc,
  append-nil, arith,
}
use rail.Result.{Result, ok, err}
use rail.Pages.{tag_of, Void}
use rail.Pages.Cutting.{cut_pages, pages, pages-done}
use rail.Pages.Sender.{
  Fabric, Reading, PageSender, is_empty, fill_loop, fill, drain, ship, ship_front, ship_ready,
  or_give_up, run_loop, ended_with, finish_run, run, stream,
}
use rail.Pages.Filling.{
  keys_of, starts, tags, todo, starts-append, IsFilled, fill_loop-IsFilled, fill_loop-some,
}

-- A sender that has not given up got past every part.
or_give_up-ok :
    (r : PageSender × Result Void) (go : PageSender → PageSender × Result Void)
    → (or_give_up r go).0.left_unsent ≡ false
    → (u : Void) × (r.1 ≡ ok u) × (or_give_up r go ≡ go r.0)
or_give_up-ok (s, ok u) go h = (u, refl, refl)
or_give_up-ok (s, err e) go h = absurd (ground (arith, h))

tags-append : (base : ℕ) (xs ys : List ℕ) → tags base (xs ++ ys) ≡ tags base xs ++ tags base ys
tags-append base [] ys = refl
tags-append base (x ∷ xs) ys = ap (λ t. tag_of base x ∷ t) (tags-append base xs ys)

-- What is sent, and what is to be sent, of the tags of a range.
abbrev goal : Fabric → PageSender → ℕ → ℕ → List ℕ
goal f s cursor end = starts s.sent ++ tags s.tag_base (todo f s cursor end)

-- Shipping the first page of Prefetch.
ship_front-goal :
    (f : Fabric) (s : PageSender) (queue : List Reading) (cursor end : ℕ) (u : Void)
    → s.prefetch ≡ queue
    → is_empty queue ≡ false
    → (ship_front f s queue).1 ≡ ok u
    → (goal f ((ship_front f s queue).0) cursor end ≡ goal f s cursor end)
      × (suc (length (todo f ((ship_front f s queue).0) cursor end)) ≡ length (todo f s cursor end))
      × ((ship_front f s queue).0.left_unsent ≡ s.left_unsent)
      × ((ship_front f s queue).0.tag_base ≡ s.tag_base)
      × ((ship_front f s queue).0.geometry ≡ s.geometry)
unfolding ship_front ship
ship_front-goal f s [] cursor end u e some done = absurd (ground (arith, some))
ship_front-goal f s (r ∷ rest) cursor end u e some done =
    elim (Bool-cases
      (ltb 0 s.refuse_send_after_pages && not (ltb s.shipped s.refuse_send_after_pages))) [
        | inl refused ↦ absurd (ground (arith, rw refused at done))
        | inr goes ↦
            let left = starts (pages f.page_bytes cursor end) in
            let before : todo f s cursor end ≡ r.key ∷ (keys_of rest ++ left) =
              ap (λ q. keys_of q ++ left) e in
            let moved : starts (s.sent ++ ((tag_of s.tag_base r.key, _) ∷ []))
                  ++ tags s.tag_base (keys_of rest ++ left)
                ≡ goal f s cursor end =
              ap (λ t. t ++ tags s.tag_base (keys_of rest ++ left)) (starts-append s.sent _)
              ∙ append_assoc (starts s.sent) (tag_of s.tag_base r.key ∷ [])
                  (tags s.tag_base (keys_of rest ++ left))
              ∙ ap (λ t. starts s.sent ++ tags s.tag_base t) (sym before) in
            rw goes (moved, sym (ap length before), refl, refl, refl)
      ]

is_empty→≡ : (queue : List Reading) → is_empty queue ≡ true → queue ≡ []
is_empty→≡ [] h = refl
is_empty→≡ (r ∷ queue) h = absurd (ground (arith, h))

length-some : (queue : List Reading) → is_empty queue ≡ false → 0 < length queue
length-some [] h = absurd (ground (arith, h))
length-some (r ∷ queue) h = omega arith

nothing_left :
    (f : Fabric) (s : PageSender) (cursor end : ℕ)
    → is_empty s.prefetch ≡ true
    → end ≤ cursor
    → goal f s cursor end ≡ starts s.sent
nothing_left f s cursor end empty past =
    rw (is_empty→≡ s.prefetch empty, pages-done f.page_bytes cursor end past)
      (append-nil (starts s.sent))

goal-filled :
    (f : Fabric) (s s' : PageSender) (cursor cursor' end : ℕ)
    → IsFilled f s s' cursor cursor' end
    → goal f s' cursor' end ≡ goal f s cursor end
goal-filled f s s' cursor cursor' end h = rw (h.sent_same, h.base_same, h.todo_same) refl

module _ (f : Fabric) (fuel cursor end : ℕ) where
  -- What the rest of the loop does with a state, where it has the rounds for it.
  abbrev Goes : Type 0
  Goes =
      (s : PageSender)
      → 0 < s.geometry.read_ahead
      → length (todo f s cursor end) < fuel
      → (run_loop f fuel s cursor end).0.left_unsent ≡ false
      → starts (run_loop f fuel s cursor end).0.sent ≡ goal f s cursor end

  -- A round behind fill.
  shipped-sent :
      (keep : ℕ) (s : PageSender)
      → Goes
      → is_empty s.prefetch ≡ false
      → 0 < s.geometry.read_ahead
      → length (todo f s cursor end) < suc fuel
      → (or_give_up
          (drain f keep s)
          (λ s2. or_give_up (ship_ready f s2) (λ s3. run_loop f fuel s3 cursor end))).0.left_unsent
        ≡ false
      → starts
          (or_give_up
            (drain f keep s)
            (λ s2. or_give_up (ship_ready f s2) (λ s3. run_loop f fuel s3 cursor end))).0.sent
        ≡ goal f s cursor end
  unfolding drain ship_ready
  shipped-sent keep s goes some ahead enough kept =
      let after_drain : PageSender → PageSender × Result Void =
        λ s2. or_give_up (ship_ready f s2) (λ s3. run_loop f fuel s3 cursor end) in
      let after_ship : PageSender → PageSender × Result Void =
        λ s3. run_loop f fuel s3 cursor end in
      let (u, drained, first) = or_give_up-ok (drain f keep s) after_drain kept in
      let s2 = (drain f keep s).0 in
      let kept2 = ap (λ r. r.0.left_unsent) (sym first) ∙ kept in
      let (v, went, second) = or_give_up-ok (ship_ready f s2) after_ship kept2 in
      let (same_goal, fewer, unsent, base, geometry) =
        ship_front-goal f s2 s2.prefetch cursor end v refl some went in
      let s3 = (ship_ready f s2).0 in
      ap (λ r. starts r.0.sent) (first ∙ second)
      ∙ goes s3 (omega (arith, ahead, ap (λ g. g.read_ahead) geometry))
          (omega (arith, enough, fewer)) (ap (λ r. r.0.left_unsent) (sym second) ∙ kept2)
      ∙ same_goal

run_loop-sent :
    (f : Fabric) (fuel : ℕ) (s : PageSender) (cursor end : ℕ)
    → 0 < f.page_bytes
    → f.page_bytes < 2 ^ 32
    → 0 < s.geometry.read_ahead
    → length (todo f s cursor end) < fuel
    → (run_loop f fuel s cursor end).0.left_unsent ≡ false
    → starts (run_loop f fuel s cursor end).0.sent ≡ goal f s cursor end
unfolding run_loop fill
run_loop-sent f zero s cursor end pos word ahead enough kept = absurd (omega arith)
run_loop-sent f (suc fuel) s cursor end pos word ahead enough kept =
    elim (Bool-cases (ltb cursor end || not (is_empty s.prefetch))) [
      | inr over ↦
          rw over (sym (nothing_left f s cursor end (ground (arith, over)) (ground (arith, over))))
      | inl more ↦ rw more (
          one_round more (rw more at kept)
            (λ s3 a e k. run_loop-sent f fuel s3 filled.1 end pos word a e k))
    ]
  where
    filled : PageSender × ℕ × Result Void
    filled = fill_loop f s.geometry.read_ahead s cursor end

    keep : ℕ
    keep = (s.geometry.window + (2 ^ 64 - 1)) % 2 ^ 64

    behind : PageSender → PageSender × Result Void
    behind s1 =
        if is_empty s1.prefetch
        then (s1, ok tt)
        else or_give_up (drain f keep s1)
            (λ s2. or_give_up (ship_ready f s2) (λ s3. run_loop f fuel s3 filled.1 end))

    one_round :
        (ltb cursor end || not (is_empty s.prefetch)) ≡ true
        → (or_give_up (filled.0, filled.2) behind).0.left_unsent ≡ false
        → Goes f fuel filled.1 end
        → starts (or_give_up (filled.0, filled.2) behind).0.sent ≡ goal f s cursor end
    one_round more kept goes =
        let (u, done, same) = or_give_up-ok (filled.0, filled.2) behind kept in
        let h = fill_loop-IsFilled f s.geometry.read_ahead s cursor end u pos word done in
        ap (λ r. starts r.0.sent) same ∙ elim (Bool-cases (is_empty filled.0.prefetch)) [
          | inl none_read ↦
              let empty : length filled.0.prefetch ≡ 0 =
                ap length (is_empty→≡ filled.0.prefetch none_read) in
              elim (Bool-cases (ltb cursor end)) [
                | inl left ↦ absurd (
                    omega (
                      arith,
                      empty,
                      fill_loop-some f s.geometry.read_ahead s cursor end u pos word ahead refl
                          (ground (arith, left)) done,
                    ))
                | inr past ↦ absurd (
                    omega
                      (arith, h.more, empty, length-some s.prefetch (ground (arith, more, past))))
              ]
          | inr some ↦
              rw some (
                shipped-sent f fuel filled.1 end keep filled.0 goes some
                  (omega (arith, ahead, ap (λ g. g.read_ahead) h.geometry_same))
                  (omega (arith, enough, ap length h.todo_same))
                  (rw some at (ap (λ r. r.0.left_unsent) (sym same) ∙ kept)))
              ∙ goal-filled f s filled.0 cursor filled.1 end h
        ]

ended_with-state : (n : ℕ) (r : PageSender × Result Void) → (ended_with n r).0 ≡ r.0
ended_with-state n (s, ok u) = refl
ended_with-state n (s, err e) = refl

length-pages : (page_bytes n at end : ℕ) → length (starts (cut_pages page_bytes n at end)) ≤ n
length-pages page_bytes zero at end = omega arith
length-pages page_bytes (suc n) at end = elim (Bool-cases (ltb at end)) [
  | inl more ↦
      rw more (omega (arith, length-pages page_bytes n (at + min page_bytes (end - at)) end))
  | inr done ↦ rw done (omega arith)
]

finish_run-kept :
    (f : Fabric) (n : ℕ) (r : PageSender × Result Void)
    → (ended_with n (finish_run f r)).0.left_unsent ≡ false
    → (r.0.left_unsent ≡ false) × ((ended_with n (finish_run f r)).0.sent ≡ r.0.sent)
unfolding drain
finish_run-kept f n (s, err e) kept = (kept, refl)
finish_run-kept f n (s, ok u) kept =
    let still = sym (ended_with-state n (finish_run f (s, ok u))) in
    let (v, drained, same) =
      or_give_up-ok (drain f 0 s) (λ s1. (s1, s1.failure)) (ap (λ t. t.left_unsent) still ∙ kept) in
    (
      ap (λ r. r.0.left_unsent) (sym same) ∙ ap (λ t. t.left_unsent) still ∙ kept,
      ap (λ t. t.sent) (sym still) ∙ ap (λ r. r.0.sent) same,
    )

-- A sender that starts with nothing sent or read, and does not give up on its range, sends a page
-- under each of the tags of the range, in order, whether it reads the page itself, its source has
-- it, or the read of it fails.
pub stream-sent :
    (f : Fabric) (s : PageSender) (offset count : ℕ)
    → 0 < f.page_bytes
    → f.page_bytes < 2 ^ 32
    → 0 < s.geometry.read_ahead
    → offset + count < 2 ^ 64
    → s.sent ≡ []
    → s.prefetch ≡ []
    → (stream f s offset count).0.left_unsent ≡ false
    → starts (stream f s offset count).0.sent
      ≡ tags s.tag_base (starts (pages f.page_bytes offset (offset + count)))
unfolding stream run
stream-sent f s offset count pos word ahead inside none_sent none_read kept =
    let end = (offset + count) % 2 ^ 64 in
    let same : end ≡ offset + count = omega (arith, inside) in
    let looped = run_loop f (suc (end - offset)) s offset end in
    let (unsent, sent) = finish_run-kept f count looped kept in
    let few = length-pages f.page_bytes (end - offset) offset end in
    let none_ahead : todo f s offset end ≡ starts (pages f.page_bytes offset end) =
      ap (λ q. keys_of q ++ starts (pages f.page_bytes offset end)) none_read in
    ap starts sent
    ∙ run_loop-sent f (suc (end - offset)) s offset end pos word ahead
        (omega (arith, few, ap length none_ahead)) unsent
    ∙ ap (λ l. starts l ++ tags s.tag_base (todo f s offset end)) none_sent
    ∙ ap (tags s.tag_base) none_ahead
    ∙ ap (λ e. tags s.tag_base (starts (pages f.page_bytes offset e))) same
