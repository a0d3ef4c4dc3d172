-- ===== src/Tests/Turns.antt =====
-- A turn and a gate that three coroutines want.
use rail.Prelude.{ℕ, ◌+◌, ◌≤◌, ◌<◌, ◌≡◌, refl, true, [], ◌∷◌, length, ◌==◌, arith}
use rail.Io.Turn.{
  Turn, await_ready, await_suspend, await_resume, give_to, give, cancel, drop_awaiter, destroy,
}
use rail.Io.Turn.Queues.{times, ahead}
use rail.Io.Turn.Steps.{
  System, enter, wait, leave, abandon_handed, idle, Reach, start, after, Stays, here, onward,
}
use rail.Io.Turn.Sound.{Reach-one_turn}
use rail.Io.Turn.Fair.{Stays-bounded}
use rail.Vfs.Gate
use rail.Vfs.Gate.Lost

abbrev entered : Turn
entered = await_resume idle.turn 1

abbrev two_wait : Turn
two_wait = await_suspend (await_suspend entered 2) 3

abbrev two_waiting : System
two_waiting = record { turn = two_wait; holders = 1 ∷ [] }

abbrev handed_on : System
handed_on = record { turn = give two_wait; holders = [] }

abbrev passed_on : System
passed_on = record { turn = destroy (give two_wait) 2; holders = [] }

two_waiting-Reach : Reach two_waiting
unfolding await_ready await_suspend await_resume
two_waiting-Reach =
    after (after (after start (enter 1 refl refl)) (wait 2 refl refl)) (wait 3 refl refl)

passed_on-Reach : Reach passed_on
unfolding await_ready await_suspend await_resume give give_to
passed_on-Reach = after (after two_waiting-Reach (leave [] 1 [])) (abandon_handed 2 refl refl)

passed_to_third : passed_on.turn.ready ≡ 3 ∷ []
unfolding await_ready await_suspend await_resume give give_to destroy cancel drop_awaiter
passed_to_third = refl

Reach-one_turn_example :
    (0 + length passed_on.turn.ready ≤ 1)
    × ((a : ℕ) → 0 < times a passed_on.turn.waiting → 0 + length passed_on.turn.ready ≡ 1)
Reach-one_turn_example = Reach-one_turn passed_on-Reach

third_waits : 0 < times 3 two_waiting.turn.waiting
unfolding await_suspend await_resume
third_waits = omega arith

third_Stays : Stays 3 two_waiting 1 handed_on
unfolding await_suspend await_resume give give_to
third_Stays = onward here (leave [] 1 []) (omega arith)

Stays-bounded_example : 1 + ahead 3 handed_on.turn.waiting ≤ ahead 3 two_waiting.turn.waiting
Stays-bounded_example = Stays-bounded two_waiting-Reach third_waits third_Stays

abbrev held_gate : Gate.Gate
held_gate = record { held = true; waiting = 2 ∷ 3 ∷ []; queued = λ a. (a == 2); ready = [] }

abbrev lost_gate : Gate.Gate
lost_gate = Gate.destroy (Gate.give held_gate) 2

abbrev stuck : Lost.System
stuck = record { gate = Gate.suspend lost_gate 4; holders = [] }

one_more_waits : Lost.Steps (record { gate = lost_gate; holders = [] }) stuck
unfolding Gate.is_free Gate.destroy Gate.give Gate.give_to
one_more_waits = Lost.onward Lost.here (Lost.wait 4 refl)

Steps-lost_example : (stuck.gate.held ≡ true) × (stuck.gate.ready ≡ []) × (stuck.holders ≡ [])
Steps-lost_example = Lost.Steps-lost held_gate 2 (3 ∷ []) refl refl refl one_more_waits
