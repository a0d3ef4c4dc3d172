-- ===== src/Io/Turn/Steps.antt =====
-- What coroutines do with a turn, in any order, and how often it is handed on.
use rail.Prelude.{ℕ, ◌+◌, ◌<◌, ◌≡◌, true, false, List, [], ◌∷◌, ◌++◌}
use rail.Io.Turn.{unset, Turn, await_ready, await_suspend, await_resume, give, destroy}
use rail.Io.Turn.Queues.{times}

-- The turn, and the awaiters that have resumed and whose holders have not given it back.
pub record System : Type 0 where
  pub turn : Turn
  pub holders : List ℕ

-- One step, and whether the turn was given.
pub data Step : System → ℕ → System → Type 0 where
  enter :
      {t : Turn} {holders : List ℕ} (a : ℕ)
      → await_ready t ≡ true
      → t.flags a ≡ unset
      → Step
          (record { turn = t; holders = holders })
          0
          (record { turn = await_resume t a; holders = a ∷ holders })
  wait :
      {t : Turn} {holders : List ℕ} (a : ℕ)
      → await_ready t ≡ false
      → t.flags a ≡ unset
      → Step
          (record { turn = t; holders = holders })
          0
          (record { turn = await_suspend t a; holders = holders })
  resume :
      {t : Turn} {holders : List ℕ} (a : ℕ) (rest : List ℕ)
      → t.ready ≡ a ∷ rest
      → Step
          (record { turn = t; holders = holders })
          0
          (record { turn = await_resume (record t { ready = rest }) a; holders = a ∷ holders })
  leave :
      {t : Turn} (front : List ℕ) (a : ℕ) (back : List ℕ)
      → Step
          (record { turn = t; holders = front ++ (a ∷ back) })
          1
          (record { turn = give t; holders = front ++ back })
  abandon_queued :
      {t : Turn} {holders : List ℕ} (a : ℕ)
      → (t.flags a).queued ≡ true
      → Step
          (record { turn = t; holders = holders })
          0
          (record { turn = destroy t a; holders = holders })
  abandon_handed :
      {t : Turn} {holders : List ℕ} (a : ℕ)
      → (t.flags a).queued ≡ false
      → (t.flags a).handed ≡ true
      → Step
          (record { turn = t; holders = holders })
          1
          (record { turn = destroy t a; holders = holders })

abbrev pub idle : System
idle = record {
  turn = record { held = false; waiting = []; flags = λ a. unset; ready = [] };
  holders = [];
}

pub data Reach : System → Type 0 where
  start : Reach idle
  after : {s t : System} {n : ℕ} → Reach s → Step s n t → Reach t

-- A run in which an awaiter stays in the queue, and how often the turn is given in it.
pub data Stays (a : ℕ) (s : System) : ℕ → System → Type 0 where
  here : Stays a s 0 s
  onward :
      {k n : ℕ} {t u : System}
      → Stays a s k t
      → Step t n u
      → 0 < times a u.turn.waiting
      → Stays a s (k + n) u
