-- ===== src/EventLoop/Stop.antt =====
-- `stop_event_loop_in_time` notifies without `cv_mutex`, unlike `post`.
use breeze_js.Prelude.{ℕ, ◌+◌, ◌≡◌, refl, ap, sym, ◌∙◌, some}
use breeze_js.EventLoop.{
  sleeps_next, sleeps, idle, joins, State, Step, enqueue, fetch_add, lock_unlock, notify_one,
  try_dequeue, dequeue_fails, in_time, too_late, fetch_sub, run_task, break_loop, go_on, lock_mutex,
  pred_true, pred_false, block, wake_spuriously, set_deadline, notify_all, join, restart, tick,
  wake, Reach, here, next,
}

-- What comes from outside the two threads: another post, a spurious wake-up, the clock.
abbrev pub IsOutside : {s t : State} → Step s t → Type 0
IsOutside (enqueue task) = Unit {0}
IsOutside (wake_spuriously e) = Unit {0}
IsOutside tick = Unit {0}
IsOutside _ = ⊥

-- The JS thread sleeps, the stopping thread has notified and waits for it, and no thread is in
-- `post`.
pub record IsStuck (s : State) : Type 0 where
  pub asleep : s.js ≡ sleeps
  pub waiting : s.stop ≡ joins
  pub enqueued_none : s.enqueued ≡ 0
  pub added_none : s.added ≡ 0
  pub locked_none : s.locked ≡ 0

IsStuck-IsOutside : {s t : State} → IsStuck s → (st : Step s t) → IsOutside st
IsStuck-IsOutside k (enqueue task) = tt
IsStuck-IsOutside k (fetch_add n e) = cc (sym k.enqueued_none ∙ e)
IsStuck-IsOutside k (lock_unlock n e u) = cc (sym k.added_none ∙ e)
IsStuck-IsOutside k (notify_one n e) = cc (sym k.locked_none ∙ e)
IsStuck-IsOutside k (try_dequeue before after task e q) = cc (sym k.asleep ∙ e)
IsStuck-IsOutside k (dequeue_fails e) = cc (sym k.asleep ∙ e)
IsStuck-IsOutside k (in_time task e m) = cc (sym k.asleep ∙ e)
IsStuck-IsOutside k (too_late task e l) = cc (sym k.asleep ∙ e)
IsStuck-IsOutside k (fetch_sub task e) = cc (sym k.asleep ∙ e)
IsStuck-IsOutside k (run_task task e) = cc (sym k.asleep ∙ e)
IsStuck-IsOutside k (break_loop e d z) = cc (sym k.asleep ∙ e)
IsStuck-IsOutside k (go_on e d) = cc (sym k.asleep ∙ e)
IsStuck-IsOutside k (lock_mutex e) = cc (sym k.asleep ∙ e)
IsStuck-IsOutside k (pred_true e d) = cc (sym k.asleep ∙ e)
IsStuck-IsOutside k (pred_false e d z) = cc (sym k.asleep ∙ e)
IsStuck-IsOutside k (block e) = cc (sym k.asleep ∙ e)
IsStuck-IsOutside k (wake_spuriously e) = tt
IsStuck-IsOutside k (set_deadline d e) = cc (sym k.waiting ∙ e)
IsStuck-IsOutside k (notify_all e) = cc (sym k.waiting ∙ e)
IsStuck-IsOutside k (join e x) = cc (sym k.asleep ∙ x)
IsStuck-IsOutside k (restart e x) = cc (sym k.asleep ∙ x)
IsStuck-IsOutside k tick = tt

-- What the stopping thread and the JS thread do between the predicate and the sleep.
abbrev pub stopped : State → ℕ → State
stopped s timeout = record s { stop = joins; deadline = some (s.now + timeout); js = sleeps }

-- The wake-up of stop_event_loop_in_time can be lost: if no thread is in `post` and the stop comes
-- after the JS thread has found the predicate false and before it sleeps, the two threads reach a
-- state in which the one sleeps and the other waits for it, and in which no step is possible but a
-- new post, a spurious wake-up and the clock.
pub stop_wakeup_lost :
    (s : State) (timeout : ℕ)
    → s.js ≡ sleeps_next
    → s.stop ≡ idle
    → s.enqueued ≡ 0
    → s.added ≡ 0
    → s.locked ≡ 0
    → Reach s (stopped s timeout) × ((t : State) (st : Step (stopped s timeout) t) → IsOutside st)
stop_wakeup_lost s timeout e i x y z = (
  next (next (next here (set_deadline timeout i)) (notify_all refl)) (block (ap wake e)),
  λ t st.
      IsStuck-IsOutside
        (record {
          asleep = refl;
          waiting = refl;
          enqueued_none = x;
          added_none = y;
          locked_none = z;
        })
        st,
)
