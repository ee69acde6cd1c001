-- ===== src/Timers/Threads/Tests.antt =====
-- Runs of the two threads, and the theorems at them.
use breeze_js.Prelude.{ℕ, ◌≤◌, ◌≡◌, refl, Bool, true, false, [], ◌∷◌, ◌++◌, some, count}
use breeze_js.Prelude.Int.{pos}
use breeze_js.Timers.{visit, round, clear_timeout}
use breeze_js.Timers.Ids.{find_id}
use breeze_js.Timers.Threads.{
  State, Step, initial, Reach, here, next, sleeps, calls, new_slot, wake_up, visit_next,
  erase_empty, call_next, sleep_again, set_timeout, clear_ahead,
}
use breeze_js.Timers.Threads.Once.{called_once}
use breeze_js.Timers.Threads.Cleared.{cleared, clear_timeout-never_called}
use breeze_js.Timers.Threads.Pending.{sleeps-called}
use breeze_js.Timers.Threads.Rounds as Rounds
use breeze_js.Timers.Threads.Rounds.{Alone, sleeps-round}

abbrev nothing_gone : ℕ → Bool
nothing_gone ctx = false

-- One timeout of no delay, through one round.
abbrev one_called : State
one_called = record initial { called = 7 ∷ []; timeouts = 7 ∷ []; rounds = 1 }

one_run : Reach initial one_called
unfolding visit
one_run =
    next
      (next
        (next
          (next (next (next here (set_timeout 7 (pos 0) 0)) (wake_up refl))
            (visit_next nothing_gone (new_slot false 7 (pos 0) 0 1) [] refl refl))
          (erase_empty refl))
        (call_next 7 [] refl refl))
      (sleep_again refl refl)

called_once_example : count 7 one_called.called ≤ count 7 one_called.timeouts
called_once_example = called_once 7 one_run refl

-- A round has collected a timeout and an interval; JS clears the interval, and it is called.
abbrev collected : State
collected = record {
  seen = [];
  ahead = new_slot true 8 (pos 0) 0 2 ∷ [];
  pc = calls;
  callbacks = 7 ∷ 8 ∷ [];
  called = [];
  timeouts = 7 ∷ [];
  intervals = 8 ∷ [];
  rounds = 1;
}

abbrev cleared_late : State
cleared_late = record collected { ahead = []; pc = sleeps; callbacks = []; called = 7 ∷ 8 ∷ [] }

cleared_late_run : Reach collected cleared_late
unfolding find_id clear_timeout
cleared_late_run =
    next
      (next (next (next here (clear_ahead 2 refl tt)) (call_next 7 (8 ∷ []) refl refl))
        (call_next 8 [] refl refl))
      (sleep_again refl refl)

sleeps-called_example : cleared_late.called ≡ collected.called ++ collected.callbacks
sleeps-called_example = sleeps-called {s = collected} refl cleared_late_run refl refl

abbrev armed : State
armed = record initial { ahead = new_slot false 7 (pos 0) 0 1 ∷ []; timeouts = 7 ∷ [] }

armed-Alone : Alone nothing_gone armed one_called
unfolding visit
armed-Alone =
    Rounds.next (sleep_again refl refl)
      (Rounds.next (call_next 7 [] refl refl)
        (Rounds.next (erase_empty refl)
          (Rounds.next (visit_next nothing_gone (new_slot false 7 (pos 0) 0 1) [] refl refl)
            (Rounds.next (wake_up refl) Rounds.here tt) refl)
          tt)
        tt)
      tt

sleeps-round_example :
    (one_called.ahead ≡ (round nothing_gone armed.ahead).0)
    × (one_called.called ≡ armed.called ++ (round nothing_gone armed.ahead).1)
sleeps-round_example = sleeps-round nothing_gone armed refl refl armed-Alone refl refl

-- The timeout is cleared, and a round begins and ends.
abbrev rested : State
rested = record armed { ahead = []; rounds = 1 }

rested_run : Reach (cleared 1 armed) rested
unfolding cleared find_id clear_timeout
rested_run = next (next (next here (wake_up refl)) (erase_empty refl)) (sleep_again refl refl)

armed_found :
    find_id 1 (armed.seen ++ armed.ahead)
    ≡ some (record { callback = 7; ctx = 0; delay = pos 0; elapsed = 0; repeat = false; id = 1 })
unfolding find_id
armed_found = refl

clear_timeout-never_called_example :
    Step armed (cleared 1 armed) × (count 7 rested.called ≡ count 7 armed.called)
clear_timeout-never_called_example =
    clear_timeout-never_called armed 1 _ armed_found refl tt rested_run refl
