-- ===== src/EventLoop/Count.antt =====
-- What `task_queue_size` counts at every moment, wrapped at 2^64 as it may be.
use breeze_js.Prelude.{sizes, ℕ, ◌+◌, ◌%◌, ◌<◌, ◌≡◌, refl, ap, arith, length}
use breeze_js.EventLoop.{
  size_mod, JsPc, has_task, subtracts, sleeps, State, Step, enqueue, fetch_add, lock_unlock,
  notify_one, try_dequeue, dequeue_fails, in_time, too_late, fetch_sub, run_task, break_loop, go_on,
  lock_mutex, pred_true, pred_false, block, wake_spuriously, set_deadline, notify_all, join,
  restart, tick, wake, Reach, here, next, initial,
}

-- A task that is taken and not yet counted off.
abbrev pub held : JsPc → ℕ
held (has_task t) = 1
held (subtracts t) = 1
held _ = 0

-- The counter, with the increments still to come, counts the tasks in the queue, the one at hand,
-- and those that were dropped: these are never counted off.
pub record IsCounted (s : State) : Type 0 where
  pub balanced :
      (s.size + s.enqueued) % size_mod ≡ (length s.queue + held s.js + length s.dropped) % size_mod
  pub in_range : s.size < size_mod

held-wake : (pc : JsPc) → held (wake pc) ≡ held pc
held-wake sleeps = refl
held-wake _ = refl

-- The JS thread goes on, with a task at hand or not as before.
moved-IsCounted :
    {s : State} {pc pc' : JsPc}
    → s.js ≡ pc
    → held pc' ≡ held pc
    → IsCounted s
    → IsCounted (record s { js = pc' })
moved-IsCounted e q h = ground (arith, ap held e)

pub Step-IsCounted : {s t : State} → Step s t → IsCounted s → IsCounted t
Step-IsCounted {s} (enqueue task) h = grind (sizes, h)
Step-IsCounted (fetch_add n e) h = omega arith
Step-IsCounted (lock_unlock n e u) h = ground arith
Step-IsCounted {s} (notify_one n e) h = ground (arith, held-wake s.js)
Step-IsCounted (try_dequeue before after task e q) h = grind (sizes, h, ap length q, ap held e)
Step-IsCounted (dequeue_fails e) h = moved-IsCounted e refl h
Step-IsCounted (in_time task e m) h = moved-IsCounted e refl h
Step-IsCounted (too_late task e l) h = ground (arith, ap held e)
Step-IsCounted (fetch_sub task e) h = ground (arith, ap held e)
Step-IsCounted (run_task task e) h = ground (arith, ap held e)
Step-IsCounted (break_loop e d z) h = moved-IsCounted e refl h
Step-IsCounted (go_on e d) h = moved-IsCounted e refl h
Step-IsCounted (lock_mutex e) h = moved-IsCounted e refl h
Step-IsCounted (pred_true e d) h = moved-IsCounted e refl h
Step-IsCounted (pred_false e d z) h = moved-IsCounted e refl h
Step-IsCounted (block e) h = moved-IsCounted e refl h
Step-IsCounted (wake_spuriously e) h = moved-IsCounted e refl h
Step-IsCounted (set_deadline d e) h = ground arith
Step-IsCounted {s} (notify_all e) h = ground (arith, held-wake s.js)
Step-IsCounted (join e x) h = ground arith
Step-IsCounted (restart e x) h = ground (arith, ap held x)
Step-IsCounted tick h = ground arith

-- The counter is right in every state that the threads can reach together.
pub Reach-IsCounted : {s : State} → Reach initial s → IsCounted s
Reach-IsCounted here = record { balanced = refl; in_range = omega arith }
Reach-IsCounted (next r st) = Step-IsCounted st (Reach-IsCounted r)
