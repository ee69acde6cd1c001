-- ===== src/EventLoop/Refines.antt =====
-- The threads of EventLoop as runs of EventLoop.Spec.
use mathlib.Core.Quot
use breeze_js.Prelude.{sizes, ℕ, ◌+◌, ◌≡◌, refl, ap, sym, List, [], ◌++◌, Option, none, some, count}
use breeze_js.EventLoop.{
  JsPc, State, Step, enqueue, fetch_add, lock_unlock, notify_one, try_dequeue, dequeue_fails,
  in_time, too_late, fetch_sub, run_task, break_loop, go_on, lock_mutex, pred_true, pred_false,
  block, wake_spuriously, set_deadline, notify_all, join, restart, tick, Reach, here, next, initial,
}
use breeze_js.EventLoop.Spec.{
  bag, put, Tasks, no_tasks, Change, submit, finish, lose, silent, Changes, unchanged, extend,
  TaskEvent, was_posted, was_run, was_dropped, more_events, posts, ends, occurrences,
  Changes-IsTallied,
}
use breeze_js.EventLoop.Tasks.{in_hand, in_hand-wake}

-- What there is to do, in the queue or in the hand of the JS thread; what has run; what was dropped.
abbrev pub view : State → Tasks
view s = record {
  waiting = bag (in_hand s.js ++ s.queue);
  finished = bag s.done;
  lost = bag s.dropped;
}

-- The waiting tasks when the JS thread moves.
at_pc : (q : List ℕ) {a b : JsPc} → a ≡ b → bag (in_hand a ++ q) ≡ bag (in_hand b ++ q)
at_pc q e = ap (λ p. bag (in_hand p ++ q)) e

-- What is to be seen of a step: a task enters the queue, is run by the JS thread, or is dropped by it
-- behind the deadline.
abbrev pub event_of : {s t : State} → Step s t → Option TaskEvent
event_of (enqueue task) = some (was_posted task)
event_of (fetch_add n e) = none
event_of (lock_unlock n e u) = none
event_of (notify_one n e) = none
event_of (try_dequeue before after task e q) = none
event_of (dequeue_fails e) = none
event_of (in_time task e m) = none
event_of (too_late task e l) = some (was_dropped task)
event_of (fetch_sub task e) = none
event_of (run_task task e) = some (was_run task)
event_of (break_loop e d z) = none
event_of (go_on e d) = none
event_of (lock_mutex e) = none
event_of (pred_true e d) = none
event_of (pred_false e d z) = none
event_of (block e) = none
event_of (wake_spuriously e) = none
event_of (set_deadline d e) = none
event_of (notify_all e) = none
event_of (join e x) = none
event_of (restart e x) = none
event_of tick = none

-- The events of a run, the first one in front.
unfoldable pub events : {s t : State} → Reach s t → List TaskEvent
events here = []
events (next r st) = more_events (events r) (event_of st)

pub Step-Change : {s t : State} (st : Step s t) → Change (view s) (view t) (event_of st)
unfolding put
Step-Change {s} (enqueue task) = submit task (Quot.sound (λ a. grind sizes)) refl refl
Step-Change (fetch_add n e) = silent refl refl refl
Step-Change (lock_unlock n e u) = silent refl refl refl
Step-Change {s} (notify_one n e) =
    silent (ap (λ h. bag (h ++ s.queue)) (in_hand-wake s.js)) refl refl
Step-Change {s} (try_dequeue before after task e q) =
    silent
      (Quot.sound
        (λ a. grind (sizes, ap (count a) q, ap (λ pc. count a (in_hand pc ++ s.queue)) e)))
      refl refl
Step-Change (dequeue_fails e) = silent (sym (at_pc _ e)) refl refl
Step-Change (in_time task e m) = silent (sym (at_pc _ e)) refl refl
Step-Change (too_late task e l) = lose task (at_pc _ e) refl refl
Step-Change (fetch_sub task e) = silent (sym (at_pc _ e)) refl refl
Step-Change (run_task task e) = finish task (at_pc _ e) refl refl
Step-Change (break_loop e d z) = silent (sym (at_pc _ e)) refl refl
Step-Change (go_on e d) = silent (sym (at_pc _ e)) refl refl
Step-Change (lock_mutex e) = silent (sym (at_pc _ e)) refl refl
Step-Change (pred_true e d) = silent (sym (at_pc _ e)) refl refl
Step-Change (pred_false e d z) = silent (sym (at_pc _ e)) refl refl
Step-Change (block e) = silent (sym (at_pc _ e)) refl refl
Step-Change (wake_spuriously e) = silent (sym (at_pc _ e)) refl refl
Step-Change (set_deadline d e) = silent refl refl refl
Step-Change {s} (notify_all e) = silent (ap (λ h. bag (h ++ s.queue)) (in_hand-wake s.js)) refl refl
Step-Change (join e x) = silent refl refl refl
Step-Change (restart e x) = silent (sym (at_pc _ x)) refl refl
Step-Change tick = silent refl refl refl

Reach-Changes_lem : {s : State} (r : Reach initial s) → Changes no_tasks (events r) (view s)
unfolding events
Reach-Changes_lem here = unchanged
Reach-Changes_lem (next r st) = extend (Reach-Changes_lem r) (Step-Change st)

-- The events of every run of the threads, whatever their interleaving, restarts included, are those of
-- a run of the specification, in which tasks have no order, step by step: a task that is posted waits,
-- only a task that waits is run or dropped, and it waits no more then. What is in the queue or in the
-- hand of the JS thread at the end, what has run and what was dropped are what that run has. So every
-- task has been posted as often as it was run or dropped or still waits.
pub Reach-Changes :
    {s : State} (r : Reach initial s)
    → Changes no_tasks (events r) (view s)
      × ((a : ℕ) → posts a (events r) ≡ ends a (events r) + count a (in_hand s.js ++ s.queue))
unfolding occurrences
Reach-Changes r = (Reach-Changes_lem r, λ a. Changes-IsTallied a (Reach-Changes_lem r))
