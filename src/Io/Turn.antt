-- ===== src/Io/Turn.antt =====
-- Turn of include/rail/io/turn.h, with the part of the event loop that it uses: the coroutines that
-- are scheduled to resume. An awaiter is a number, which stands for its address and its coroutine.
pub mod Queues
pub mod Steps
pub mod Kept
pub mod Sound
pub mod Fair
use rail.Prelude.{ℕ, Bool, true, false, not, List, [], ◌∷◌, ◌++◌, ◌==◌, if◌then◌else◌}

-- Awaiter: Queued and Handed
pub record Flags : Type 0 where
  pub queued : Bool
  pub handed : Bool

abbrev pub unset : Flags
unset = record { queued = false; handed = false }

-- Turn: Held and Waiting; the awaiters' flags; and Ready of the loop, as far as these awaiters are
-- in it.
pub record Turn : Type 0 where
  pub held : Bool
  pub waiting : List ℕ
  pub flags : ℕ → Flags
  pub ready : List ℕ

abbrev pub put_flags : (ℕ → Flags) → ℕ → Flags → ℕ → Flags
put_flags flags a v b = if a == b then v else flags b

-- std::erase
abbrev pub erase_all : ℕ → List ℕ → List ℕ
erase_all a [] = []
erase_all a (x ∷ xs) = if x == a then erase_all a xs else x ∷ erase_all a xs

unfoldable pub await_ready : Turn → Bool
await_ready t = not t.held

unfoldable pub await_suspend : Turn → ℕ → Turn
await_suspend t a = record t {
  flags = put_flags t.flags a (record (t.flags a) { queued = true });
  waiting = t.waiting ++ (a ∷ []);
}

unfoldable pub await_resume : Turn → ℕ → Turn
await_resume t a = record t { flags = put_flags t.flags a unset; held = true }

-- give, with Loop::schedule
unfoldable pub give_to : Turn → List ℕ → Turn
give_to t [] = record t { held = false }
give_to t (next ∷ rest) = record t {
  waiting = rest;
  flags = put_flags t.flags next (record { queued = false; handed = true });
  ready = t.ready ++ (next ∷ []);
}

unfoldable pub give : Turn → Turn
give t = give_to t t.waiting

-- Loop::cancel, of a coroutine that is destroyed.
unfoldable pub cancel : Turn → ℕ → Turn
cancel t a = record t { ready = erase_all a t.ready }

-- ~Awaiter
unfoldable pub drop_awaiter : Turn → ℕ → Turn
drop_awaiter t a =
    if (t.flags a).queued
    then record t { waiting = erase_all a t.waiting }
    else if (t.flags a).handed
    then give t
    else t

-- A coroutine is destroyed while it waits, and its awaiter with it: Coro::destroy. What has its
-- address later starts with no flag set.
unfoldable pub destroy : Turn → ℕ → Turn
destroy t a =
    let dropped = drop_awaiter (cancel t a) a in
    record dropped { flags = put_flags dropped.flags a unset }
