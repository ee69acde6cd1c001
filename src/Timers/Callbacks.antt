-- ===== src/Timers/Callbacks.antt =====
-- A round of the timers whose callbacks are JS functions: `timer_thread_func` with the std::function
-- that js_traits makes of each callback.
pub mod Calls
use breeze_js.Prelude.{
  ℕ, ◌+◌, ◌≡◌, refl, sym, ap, ◌∙◌, subst, Bool, true, false, ◌||◌, not, ◌&&◌, List, [], ◌∷◌, ◌++◌,
  if◌then◌else◌, arith, Bool-cases, inl, inr,
}
use breeze_js.Prelude.Result.{Result, ok, throws}
use breeze_js.Bridge.{
  Context, Thread, js_thread, other_thread, is_js_thread, post_task, Act, Use, uses_by,
}
use breeze_js.Bridge.Uses.{makes, gives_up, sum_of, sum_of-append, IsBalanced}
use breeze_js.Bridge.Call.{work, unwrap_free, converted, call_function}
use breeze_js.Bridge.Call.Balance.{call_outcome, call_function-works, call_function-outcome}
use breeze_js.Bridge.Call.Threads.{is_throws}
use breeze_js.Timers.{Slot, round, Event, called, reported, call_all}

-- The event loop runs, and the timer thread is another one.
abbrev pub timer_context : Context
timer_context = record { script_ctx = true; caller = other_thread }

-- The catch blocks of the round.
abbrev pub report_of : {R : Type 0} → ℕ → Result R → List Event
report_of callback (ok r) = []
report_of callback (throws e) = reported callback ∷ []

-- `js_call` says what JS_Call comes to for each callback, and `gone` whether its context is gone then.
module _ {J : Type 0} (js_call : ℕ → Result J) (gone : ℕ → Bool) where
  -- The callback is a std::function<void()>.
  abbrev pub run_callback : ℕ → Result (Unit {0}) × List Use
  run_callback callback =
      call_function (λ j. ok tt) true timer_context (gone callback) (js_call callback) 0

  unfoldable pub run_callbacks : List ℕ → List Event × List Use
  run_callbacks [] = ([], [])
  run_callbacks (callback ∷ callbacks) =
      let (r, uses) = run_callback callback in
      let (events, more) = run_callbacks callbacks in
      (called callback ∷ (report_of callback r ++ events), uses ++ more)

  -- One round: the timers that are left, the calls, and the uses of the engine.
  unfoldable pub js_round : (ℕ → Bool) → List Slot → List Slot × List Event × List Use
  unfolding run_callbacks
  js_round expired timers =
      let (rest, callbacks) = round expired timers in
      let (events, uses) = run_callbacks callbacks in (rest, events, uses)

  -- Whether a callback throws, as the round sees it.
  abbrev pub throwing : ℕ → Bool
  throwing callback = gone callback || is_throws (js_call callback)
