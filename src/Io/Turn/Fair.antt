-- ===== src/Io/Turn/Fair.antt =====
-- The turn goes round in the order of arrival.
use rail.Prelude.{
  ℕ, ◌+◌, ◌≤◌, ◌<◌, ◌≡◌, refl, ap, true, false, Bool-cases, inl, inr, List, [], ◌∷◌, ◌++◌, ◌==◌,
  arith,
}
use rail.Io.Turn.{
  Turn, erase_all, await_ready, await_suspend, await_resume, give_to, give, cancel, drop_awaiter,
  destroy,
}
use rail.Io.Turn.Queues.{times, ahead, times-erase_all, ahead-append, ahead-erase_all}
use rail.Io.Turn.Steps.{
  System, Step, enter, wait, resume, leave, abandon_queued, abandon_handed, Reach, after, Stays,
  here, onward,
}
use rail.Io.Turn.Kept.{IsOne}
use rail.Io.Turn.Sound.{Reach-IsOne}

-- Giving the turn takes one off the queue ahead of an awaiter that stays in it.
give_to-ahead :
    (t : Turn) (queue : List ℕ) (a : ℕ)
    → times a queue ≤ 1
    → 0 < times a (give_to t queue).waiting
    → t.waiting ≡ queue
    → 1 + ahead a (give_to t queue).waiting ≤ ahead a queue
unfolding give_to
give_to-ahead t [] a once stays e = absurd (omega (arith, stays, ap (times a) e))
give_to-ahead t (next ∷ rest) a once stays e = elim (Bool-cases (next == a)) [
  | inl same ↦ absurd (omega (arith, rw same at once, stays))
  | inr apart ↦ rw apart (omega arith)
]

times-once : (t : Turn) (holders : List ℕ) (a : ℕ) → IsOne t holders → times a t.waiting ≤ 1
times-once t holders a h = elim (Bool-cases ((t.flags a).queued)) [
  | inl queued ↦ omega (arith, rw queued at (h.waits a))
  | inr away ↦ omega (arith, rw away at (h.waits a))
]

destroy_queued-ahead :
    (t : Turn) (a b : ℕ)
    → (t.flags b).queued ≡ true
    → 0 < times a (destroy t b).waiting
    → ahead a (destroy t b).waiting ≤ ahead a t.waiting
unfolding destroy drop_awaiter cancel
destroy_queued-ahead t a b queued stays =
    let kept : 0 < times a (erase_all b t.waiting) = rw queued at stays in
    rw queued (elim (Bool-cases (b == a)) [
      | inr apart ↦ ahead-erase_all a b t.waiting apart
      | inl same ↦
          let is : b ≡ a = ground (arith, same) in
          absurd (
            omega (
              arith,
              kept,
              ap (λ c. times a (erase_all c t.waiting)) is,
              times-erase_all a t.waiting,
            ))
    ])

destroy_handed-ahead :
    (t : Turn) (a b : ℕ)
    → times a t.waiting ≤ 1
    → (t.flags b).queued ≡ false
    → (t.flags b).handed ≡ true
    → 0 < times a (destroy t b).waiting
    → 1 + ahead a (destroy t b).waiting ≤ ahead a t.waiting
unfolding destroy drop_awaiter give cancel
destroy_handed-ahead t a b once not_queued handed stays =
    rw (not_queued, handed)
      (give_to-ahead (cancel t b) t.waiting a once (rw (not_queued, handed) at stays) refl)

Step-ahead :
    {s u : System} {n : ℕ} (a : ℕ)
    → Step s n u
    → IsOne s.turn s.holders
    → 0 < times a s.turn.waiting
    → 0 < times a u.turn.waiting
    → n + ahead a u.turn.waiting ≤ ahead a s.turn.waiting
unfolding await_ready await_suspend await_resume give
Step-ahead a (enter {t} b now fresh) h waits stays =
    let free : t.held ≡ false = ground (arith, now) in
    absurd (omega (arith, waits, ap (times a) (h.free free).0))
Step-ahead a (wait {t} b busy fresh) h waits stays =
    omega (arith, ahead-append a t.waiting (b ∷ []) waits)
Step-ahead a (resume {t} b rest e) h waits stays = omega arith
Step-ahead a (leave {t} front b back) h waits stays =
    give_to-ahead t t.waiting a (times-once t (front ++ (b ∷ back)) a h) stays refl
Step-ahead a (abandon_queued {t} b queued) h waits stays =
    omega (arith, destroy_queued-ahead t a b queued stays)
Step-ahead a (abandon_handed {t} {holders} b not_queued handed) h waits stays =
    destroy_handed-ahead t a b (times-once t holders a h) not_queued handed stays

Reach-Stays : {a : ℕ} {s : System} {k : ℕ} {u : System} → Reach s → Stays a s k u → Reach u
Reach-Stays run here = run
Reach-Stays run (onward stays step waits) = after (Reach-Stays run stays) step

Stays-waits :
    {a : ℕ} {s : System} {k : ℕ} {u : System}
    → 0 < times a s.turn.waiting
    → Stays a s k u
    → 0 < times a u.turn.waiting
Stays-waits waits here = waits
Stays-waits waits (onward stays step later) = later

-- While an awaiter stays in the queue of a turn, the turn is given no more often than there were
-- awaiters ahead of it when it is first looked at, less those that still are, whoever comes, goes
-- or is destroyed.
pub Stays-bounded :
    {a : ℕ} {s : System} {k : ℕ} {u : System}
    → Reach s
    → 0 < times a s.turn.waiting
    → Stays a s k u
    → k + ahead a u.turn.waiting ≤ ahead a s.turn.waiting
Stays-bounded run waits here = omega arith
Stays-bounded {a} run waits (onward stays step later) = omega (
  arith,
  Stays-bounded run waits stays,
  Step-ahead a step (Reach-IsOne (Reach-Stays run stays)) (Stays-waits waits stays) later,
)
