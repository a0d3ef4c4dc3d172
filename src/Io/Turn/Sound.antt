-- ===== src/Io/Turn/Sound.antt =====
-- In every run, at most one awaiter has the turn, and it is not lost while one waits.
use rail.Prelude.{
  ℕ, suc, ◌+◌, ◌≤◌, ◌<◌, ◌≡◌, refl, sym, ap, ◌∙◌, true, false, Bool-cases, inl, inr, List, [], ◌∷◌,
  ◌++◌, length, ◌==◌, length-append, arith,
}
use rail.Io.Turn.{
  unset, Turn, put_flags, erase_all, await_resume, give_to, give, cancel, drop_awaiter, destroy,
}
use rail.Io.Turn.Queues.{times, times-erase_all, times-erase_other}
use rail.Io.Turn.Steps.{
  System, Step, enter, wait, resume, leave, abandon_queued, abandon_handed, Reach, start, after,
}
use rail.Io.Turn.Kept.{
  bit, IsOne, heads, none-cons, IsOne-ext, enter-IsOne, suspend-IsOne, IsGiving, give-IsOne,
}

-- A turn that an awaiter holds or waits for is in use.
used :
    (t : Turn) (holders : List ℕ)
    → IsOne t holders
    → 0 < length holders + length t.ready
    → t.held ≡ true
used t holders h some_one = elim (Bool-cases t.held) [
  | inl held ↦ held
  | inr not_held ↦
      let (no_waiting, no_ready, no_holders) = h.free not_held in
      absurd (omega (arith, some_one, ap length no_ready, ap length no_holders))
]

nil : (xs : List ℕ) → length xs ≡ 0 → xs ≡ []
nil [] e = refl
nil (x ∷ xs) e = absurd (omega (arith, e))

resume-IsOne :
    (t : Turn) (holders : List ℕ) (a : ℕ) (rest : List ℕ)
    → IsOne t holders
    → t.ready ≡ a ∷ rest
    → IsOne (await_resume (record t { ready = rest }) a) (a ∷ holders)
unfolding await_resume
resume-IsOne t holders a rest h e =
    let size : length t.ready ≡ suc (length rest) = ap length e in
    let one = h.one (used t holders h (omega (arith, size))) in
    record {
      free = λ f. absurd (ground (arith, f));
      one = λ f. omega (arith, one, size);
      handed = handed;
      ready = λ b later f. absurd (omega (arith, one, size, ap length f));
      waits = waits;
    }
  where
    handed : (b : ℕ) → (put_flags t.flags a unset b).handed ≡ true → rest ≡ b ∷ []
    handed b f = elim (Bool-cases (a == b)) [
      | inl same ↦ absurd (ground (arith, rw same at f))
      | inr apart ↦
          let is : a ≡ b = heads (sym e ∙ h.handed b (rw apart at f)) in
          absurd (ground (arith, apart, is))
    ]

    waits : (b : ℕ) → times b t.waiting ≡ bit ((put_flags t.flags a unset b).queued)
    waits b = elim (Bool-cases (a == b)) [
      | inr apart ↦ rw apart (h.waits b)
      | inl same ↦
          let is : a ≡ b = ground (arith, same) in
          rw same
            (h.waits b ∙ ap (λ c. bit (t.flags c).queued) (sym is) ∙ ap bit (h.ready a rest e).0)
    ]

leave-IsOne :
    (t : Turn) (front : List ℕ) (a : ℕ) (back : List ℕ)
    → IsOne t (front ++ (a ∷ back))
    → IsOne (give t) (front ++ back)
leave-IsOne t front a back h =
    let size : length (front ++ (a ∷ back)) ≡ length front + suc (length back) =
      length-append front (a ∷ back) in
    let held = used t (front ++ (a ∷ back)) h (omega (arith, size)) in
    let none_ready : t.ready ≡ [] = nil t.ready (omega (arith, h.one held, size)) in
    let nobody : front ++ back ≡ [] =
      nil (front ++ back) (omega (arith, h.one held, size, length-append front back)) in
    let giving : IsGiving t = record {
      used = held;
      ready = none_ready;
      handed = λ b. elim (Bool-cases ((t.flags b).handed)) [
        | inl handed ↦ absurd (none-cons (sym none_ready ∙ h.handed b handed))
        | inr free ↦ free
      ];
      waits = h.waits;
    } in
    rw nobody (give-IsOne t giving)

-- The scheduled awaiters do not change where one that is queued is destroyed.
erase-ready :
    (t : Turn) (holders : List ℕ) (a : ℕ) (queue : List ℕ)
    → IsOne t holders
    → (t.flags a).queued ≡ true
    → t.ready ≡ queue
    → erase_all a queue ≡ queue
erase-ready t holders a [] h queued e = refl
erase-ready t holders a (b ∷ []) h queued e = elim (Bool-cases (b == a)) [
  | inr apart ↦ rw apart refl
  | inl same ↦
      let is : b ≡ a = ground (arith, same) in
      absurd
        (ground (arith, sym queued ∙ ap (λ c. (t.flags c).queued) (sym is) ∙ (h.ready b [] e).0))
]
erase-ready t holders a (b ∷ c ∷ queue) h queued e =
    let size = ap length e in
    absurd (omega (arith, size, h.one (used t holders h (omega (arith, size)))))

destroy_queued-IsOne :
    (t : Turn) (holders : List ℕ) (a : ℕ)
    → IsOne t holders
    → (t.flags a).queued ≡ true
    → IsOne (destroy t a) holders
unfolding destroy drop_awaiter cancel
destroy_queued-IsOne t holders a h queued =
    rw (queued, erase-ready t holders a t.ready h queued refl)
      (record {
        free = λ e.
            let (no_waiting, no_ready, no_holders) = h.free e in
            (ap (erase_all a) no_waiting, no_ready, no_holders);
        one = h.one;
        handed = handed;
        ready = ready;
        waits = waits;
      })
  where
    handed : (b : ℕ) → (put_flags t.flags a unset b).handed ≡ true → t.ready ≡ b ∷ []
    handed b f = elim (Bool-cases (a == b)) [
      | inl same ↦ absurd (ground (arith, rw same at f))
      | inr apart ↦ h.handed b (rw apart at f)
    ]

    ready :
        (b : ℕ) (rest : List ℕ)
        → t.ready ≡ b ∷ rest
        → ((put_flags t.flags a unset b).queued ≡ false)
          × ((put_flags t.flags a unset b).handed ≡ true)
    ready b rest e = elim (Bool-cases (a == b)) [
      | inr apart ↦ rw apart (h.ready b rest e)
      | inl same ↦
          let is : a ≡ b = ground (arith, same) in
          absurd
            (ground (arith, sym queued ∙ ap (λ c. (t.flags c).queued) is ∙ (h.ready b rest e).0))
    ]

    waits : (b : ℕ) → times b (erase_all a t.waiting) ≡ bit ((put_flags t.flags a unset b).queued)
    waits b = elim (Bool-cases (a == b)) [
      | inr apart ↦ rw apart (times-erase_other b a t.waiting apart ∙ h.waits b)
      | inl same ↦
          let is : a ≡ b = ground (arith, same) in
          rw same (ap (λ c. times b (erase_all c t.waiting)) is ∙ times-erase_all b t.waiting)
    ]

-- Unsetting the flags of an awaiter that is not queued, before or after the turn is given.
unset-give_to :
    (t : Turn) (a : ℕ) (queue : List ℕ)
    → times a queue ≡ 0
    → IsOne (give_to (record t { flags = put_flags t.flags a unset }) queue) []
    → IsOne (record (give_to t queue) { flags = put_flags (give_to t queue).flags a unset }) []
unfolding give_to
unset-give_to t a [] away h = h
unset-give_to t a (next ∷ rest) away h =
    IsOne-ext (give_to (record t { flags = put_flags t.flags a unset }) (next ∷ rest)) []
      (put_flags (put_flags t.flags next (record { queued = false; handed = true })) a unset) same h
  where
    apart : (next == a) ≡ false
    apart = elim (Bool-cases (next == a)) [
      | inr differs ↦ differs
      | inl is ↦ absurd (omega (arith, rw is at away))
    ]

    same :
        (b : ℕ)
        → put_flags (put_flags t.flags next (record { queued = false; handed = true })) a unset b
          ≡ put_flags (put_flags t.flags a unset) next (record { queued = false; handed = true }) b
    same b = elim (Bool-cases (next == b)) [
      | inr other ↦ rw other refl
      | inl here ↦
          let differs : (a == b) ≡ false = ground (arith, apart, here) in rw (here, differs) refl
    ]

destroy_handed-IsOne :
    (t : Turn) (holders : List ℕ) (a : ℕ)
    → IsOne t holders
    → (t.flags a).queued ≡ false
    → (t.flags a).handed ≡ true
    → IsOne (destroy t a) holders
unfolding destroy drop_awaiter cancel give
destroy_handed-IsOne t holders a h not_queued is_handed =
    let scheduled : t.ready ≡ a ∷ [] = h.handed a is_handed in
    let held = used t holders h (omega (arith, ap length scheduled)) in
    let nobody : holders ≡ [] = nil holders (omega (arith, h.one held, ap length scheduled)) in
    let away : times a t.waiting ≡ 0 = h.waits a ∙ ap bit not_queued in
    let same : (a == a) ≡ true = ground arith in
    let cancelled : erase_all a t.ready ≡ [] = rw scheduled (rw same refl) in
    let giving : IsGiving (record t { ready = []; flags = put_flags t.flags a unset }) = record {
      used = held;
      ready = refl;
      handed = handed scheduled;
      waits = waits;
    } in
    rw (not_queued, is_handed, cancelled, nobody)
      (unset-give_to (record t { ready = [] }) a t.waiting away
        (give-IsOne (record t { ready = []; flags = put_flags t.flags a unset }) giving))
  where
    handed : t.ready ≡ a ∷ [] → (b : ℕ) → (put_flags t.flags a unset b).handed ≡ false
    handed scheduled b = elim (Bool-cases (a == b)) [
      | inl same ↦ rw same refl
      | inr apart ↦ elim (Bool-cases ((t.flags b).handed)) [
        | inr free ↦ rw apart free
        | inl taken ↦
            let is : a ≡ b = heads (sym scheduled ∙ h.handed b taken) in
            absurd (ground (arith, apart, is))
      ]
    ]

    waits : (b : ℕ) → times b t.waiting ≡ bit ((put_flags t.flags a unset b).queued)
    waits b = elim (Bool-cases (a == b)) [
      | inr apart ↦ rw apart (h.waits b)
      | inl same ↦
          let is : a ≡ b = ground (arith, same) in
          rw same (h.waits b ∙ ap (λ c. bit (t.flags c).queued) (sym is) ∙ ap bit not_queued)
    ]

pub Step-IsOne :
    {s u : System} {n : ℕ} → Step s n u → IsOne s.turn s.holders → IsOne u.turn u.holders
Step-IsOne (enter {t} {holders} a now fresh) h = enter-IsOne t holders a h now fresh
Step-IsOne (wait {t} {holders} a busy fresh) h = suspend-IsOne t holders a h busy fresh
Step-IsOne (resume {t} {holders} a rest e) h = resume-IsOne t holders a rest h e
Step-IsOne (leave {t} front a back) h = leave-IsOne t front a back h
Step-IsOne (abandon_queued {t} {holders} a queued) h = destroy_queued-IsOne t holders a h queued
Step-IsOne (abandon_handed {t} {holders} a not_queued handed) h =
    destroy_handed-IsOne t holders a h not_queued handed

pub Reach-IsOne : {s : System} → Reach s → IsOne s.turn s.holders
Reach-IsOne start = record {
  free = λ e. (refl, refl, refl);
  one = λ e. absurd (ground (arith, e));
  handed = λ a e. absurd (ground (arith, e));
  ready = λ a rest e. absurd (none-cons e);
  waits = λ a. refl;
}
Reach-IsOne (after run step) = Step-IsOne step (Reach-IsOne run)

-- Whatever coroutines take the turn, give it back or are destroyed while they wait, at most one has
-- it or is scheduled to resume with it, and where an awaiter waits there is one.
pub Reach-one_turn :
    {s : System}
    → Reach s
    → (length s.holders + length s.turn.ready ≤ 1)
      × ((a : ℕ) → 0 < times a s.turn.waiting → length s.holders + length s.turn.ready ≡ 1)
Reach-one_turn {s} run =
    let h = Reach-IsOne run in
    elim (Bool-cases s.turn.held) [
      | inl held ↦ (omega (arith, h.one held), λ a waits. h.one held)
      | inr not_held ↦
          let (no_waiting, no_ready, no_holders) = h.free not_held in
          (
            omega (arith, ap length no_ready, ap length no_holders),
            λ a waits. absurd (omega (arith, waits, ap (times a) no_waiting)),
          )
    ]
