-- ===== src/Timers/Tests.antt =====
-- Runs of the timers, and the theorems at inputs.
use breeze_js.Prelude.{
  ◌==◌, if◌then◌else◌, ◌≡◌, refl, ℕ, ◌+◌, Bool, true, false, List, [], ◌∷◌, some, arith, count,
  ◌++◌,
}
use breeze_js.Prelude.Int.{pos}
use breeze_js.Prelude.Result.{Result, ok, throws}
use breeze_js.Bytes.{codes}
use breeze_js.Bridge.Call.{call_function}
use breeze_js.Timers.Callbacks.{js_round, run_callbacks}
use breeze_js.Timers.Callbacks.Calls.{off_js}
use breeze_js.Timers.{Timer, Slot, round, set_timeout, set_interval}
use breeze_js.Timers.Period.{rounds, waiting, set_timer-rounds}

abbrev present : ℕ → Bool
present ctx = false

abbrev timer : Bool → ℕ → ℕ → ℕ → Timer
timer repeat callback delay id = record {
  callback = callback;
  ctx = 0;
  delay = pos delay;
  elapsed = 0;
  repeat = repeat;
  id = id;
}

-- A timeout of 70 ms fires at the third round of 30 ms, an interval of 60 ms at every second one.
abbrev two : List Slot
two = some (timer false 7 70 1) ∷ some (timer true 8 60 2) ∷ []

rounds_run : (rounds 5 present two).1 ≡ 8 ∷ 7 ∷ 8 ∷ []
unfolding rounds round
rounds_run = refl

set_timer-rounds_example :
    let timeout = rounds 9 present (set_timeout 9 (pos 100) 0 two).1 in
    let interval = rounds 9 present (set_interval 9 (pos 100) 0 two).1 in
    let others = rounds 9 present two in
    (timeout.0 ≡ others.0 ++ [])
    × ((c : ℕ) → count c timeout.1 ≡ count c others.1 + count c (9 ∷ []))
    × (interval.0 ≡ others.0 ++ some (waiting (timer true 9 100 3) 1) ∷ [])
    × ((c : ℕ) → count c interval.1 ≡ count c others.1 + count c (9 ∷ 9 ∷ []))
set_timer-rounds_example = set_timer-rounds present 9 (pos 100) 0 refl (omega arith) two 9

-- Callback 8 returns, and callback 7 throws.
abbrev outcomes : ℕ → Result ℕ
outcomes c = if c == 7 then throws (codes "oops") else ok 0

js_round_run : off_js (js_round outcomes present present (rounds 3 present two).0).2 ≡ 1
unfolding rounds round js_round run_callbacks call_function
js_round_run = refl
