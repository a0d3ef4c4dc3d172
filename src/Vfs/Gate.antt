-- ===== src/Vfs/Gate.antt =====
-- Gate of include/rail/vfs/remotes.h, with the part of the event loop that it uses: the coroutines
-- that are scheduled to resume. An awaiter is a number, which stands for its coroutine.
pub mod Lost
use rail.Prelude.{ℕ, Bool, true, false, not, List, [], ◌∷◌, ◌++◌, ◌==◌, if◌then◌else◌}
use rail.Io.Turn.{erase_all}

-- Gate: Held and Waiting; whether an awaiter's Queued is set; and Ready of the loop, as far as
-- these awaiters are in it.
pub record Gate : Type 0 where
  pub held : Bool
  pub waiting : List ℕ
  pub queued : ℕ → Bool
  pub ready : List ℕ

abbrev pub put_queued : (ℕ → Bool) → ℕ → Bool → ℕ → Bool
put_queued queued a v b = if a == b then v else queued b

unfoldable pub is_free : Gate → Bool
is_free g = not g.held

unfoldable pub suspend : Gate → ℕ → Gate
suspend g a = record g { queued = put_queued g.queued a true; waiting = g.waiting ++ (a ∷ []) }

unfoldable pub resume : Gate → ℕ → Gate
resume g a = record g { queued = put_queued g.queued a false; held = true }

-- give, with Loop::schedule
unfoldable pub give_to : Gate → List ℕ → Gate
give_to g [] = record g { held = false }
give_to g (next ∷ rest) = record g { waiting = rest; ready = g.ready ++ (next ∷ []) }

unfoldable pub give : Gate → Gate
give g = give_to g g.waiting

-- A coroutine is destroyed while it waits: Loop::cancel, and ~Awaiter.
unfoldable pub destroy : Gate → ℕ → Gate
destroy g a =
    let cancelled = record g { ready = erase_all a g.ready } in
    record (if (g.queued a)
      then record cancelled { waiting = erase_all a g.waiting }
      else cancelled) { queued = put_queued g.queued a false }
