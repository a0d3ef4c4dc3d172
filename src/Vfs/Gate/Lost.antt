-- ===== src/Vfs/Gate/Lost.antt =====
-- A gate that was handed to a coroutine which is destroyed before it resumes.
use rail.Prelude.{
  ℕ, ◌≡◌, refl, sym, ap, ◌∙◌, true, false, Bool-cases, inl, inr, List, [], ◌∷◌, ◌++◌, length,
  get_or, ◌==◌, length-append, arith,
}
use rail.Io.Turn.{erase_all}
use rail.Vfs.Gate.{Gate, is_free, suspend, resume, give_to, give, destroy}

-- The gate, and the coroutines that have resumed with it and not given it back.
pub record System : Type 0 where
  pub gate : Gate
  pub holders : List ℕ

pub data Step : System → System → Type 0 where
  enter :
      {g : Gate} {holders : List ℕ} (a : ℕ)
      → is_free g ≡ true
      → Step
          (record { gate = g; holders = holders })
          (record { gate = resume g a; holders = a ∷ holders })
  wait :
      {g : Gate} {holders : List ℕ} (a : ℕ)
      → is_free g ≡ false
      → Step
          (record { gate = g; holders = holders })
          (record { gate = suspend g a; holders = holders })
  go_on :
      {g : Gate} {holders : List ℕ} (a : ℕ) (rest : List ℕ)
      → g.ready ≡ a ∷ rest
      → Step
          (record { gate = g; holders = holders })
          (record { gate = resume (record g { ready = rest }) a; holders = a ∷ holders })
  leave :
      {g : Gate} (front : List ℕ) (a : ℕ) (back : List ℕ)
      → Step
          (record { gate = g; holders = front ++ (a ∷ back) })
          (record { gate = give g; holders = front ++ back })
  abandon :
      {g : Gate} {holders : List ℕ} (a : ℕ)
      → Step
          (record { gate = g; holders = holders })
          (record { gate = destroy g a; holders = holders })

pub data Steps (s : System) : System → Type 0 where
  here : Steps s s
  onward : {t u : System} → Steps s t → Step t u → Steps s u

pub record IsLost (s : System) : Type 0 where
  pub held : s.gate.held ≡ true
  pub ready : s.gate.ready ≡ []
  pub holders : s.holders ≡ []

give_to-holds :
    (g : Gate) (queue : List ℕ) (a : ℕ) (rest : List ℕ)
    → queue ≡ a ∷ rest
    → (give_to g queue).held ≡ g.held
unfolding give_to
give_to-holds g [] a rest e = absurd (omega (arith, ap length e))
give_to-holds g (next ∷ queue) a rest e = refl

give_to-ready :
    (g : Gate) (queue : List ℕ) (a : ℕ) (rest : List ℕ)
    → queue ≡ a ∷ rest
    → (give_to g queue).ready ≡ g.ready ++ (a ∷ [])
unfolding give_to
give_to-ready g [] a rest e = absurd (omega (arith, ap length e))
give_to-ready g (next ∷ queue) a rest e = ap (λ b. g.ready ++ (b ∷ [])) (ap (λ l. get_or l 0 a) e)

destroy-held : (g : Gate) (a : ℕ) → (destroy g a).held ≡ g.held
unfolding destroy
destroy-held g a = elim (Bool-cases (g.queued a)) [
  | inl queued ↦ rw queued refl
  | inr away ↦ rw away refl
]

destroy-ready : (g : Gate) (a : ℕ) → (destroy g a).ready ≡ erase_all a g.ready
unfolding destroy
destroy-ready g a = elim (Bool-cases (g.queued a)) [
  | inl queued ↦ rw queued refl
  | inr away ↦ rw away refl
]

Step-IsLost : {s u : System} → Step s u → IsLost s → IsLost u
unfolding is_free suspend
Step-IsLost (enter {g} a now) h = absurd (ground (arith, now, h.held))
Step-IsLost (wait a busy) h = record { held = h.held; ready = h.ready; holders = h.holders }
Step-IsLost (go_on {g} a rest e) h = absurd (omega (arith, ap length (sym h.ready ∙ e)))
Step-IsLost (leave front a back) h =
    absurd (omega (arith, ap length h.holders, length-append front (a ∷ back)))
Step-IsLost (abandon {g} a) h = record {
  held = destroy-held g a ∙ h.held;
  ready = destroy-ready g a ∙ ap (erase_all a) h.ready;
  holders = h.holders;
}

Steps-IsLost : {s u : System} → Steps s u → IsLost s → IsLost u
Steps-IsLost here h = h
Steps-IsLost (onward steps step) h = Step-IsLost step (Steps-IsLost steps h)

-- The only holder of a gate gives it to the first that waits, which is destroyed before it resumes:
-- from there on, whatever coroutines do, the gate stays held, none of them has it and none is
-- scheduled to.
pub Steps-lost :
    (g : Gate) (a : ℕ) (rest : List ℕ) {u : System}
    → g.held ≡ true
    → g.ready ≡ []
    → g.waiting ≡ a ∷ rest
    → Steps (record { gate = destroy (give g) a; holders = [] }) u
    → (u.gate.held ≡ true) × (u.gate.ready ≡ []) × (u.holders ≡ [])
unfolding give
Steps-lost g a rest held none_ready waits steps =
    let h = Steps-IsLost steps (record {
      held = destroy-held (give_to g g.waiting) a ∙ give_to-holds g g.waiting a rest waits ∙ held;
      ready = destroy-ready (give_to g g.waiting) a ∙ emptied;
      holders = refl;
    }) in
    (h.held, h.ready, h.holders)
  where
    same : (a == a) ≡ true
    same = ground arith

    emptied : erase_all a (give_to g g.waiting).ready ≡ []
    emptied =
        ap (erase_all a)
          (give_to-ready g g.waiting a rest waits ∙ ap (λ l. l ++ (a ∷ [])) none_ready)
        ∙ rw same refl
