-- ===== src/EventLoop/Tests.antt =====
-- Runs of the threads, and the theorems at states that they reach.
use breeze_js.Prelude.{◌++◌, ◌+◌, ℕ, ◌≡◌, ◌≢◌, refl, [], ◌∷◌, inl, arith, count}
use breeze_js.EventLoop.{
  dequeues, has_task, leaves, sleeps_next, sleeps, exited, joined, State, Step, enqueue, fetch_add,
  lock_unlock, notify_one, try_dequeue, dequeue_fails, in_time, fetch_sub, run_task, go_on,
  lock_mutex, pred_false, block, set_deadline, Reach, here, next, initial,
}
use breeze_js.EventLoop.Tasks.{sleeps-done}
use breeze_js.EventLoop.Shutdown.{stay, too_late-never_exits}
use breeze_js.EventLoop.Stop.{stopped, IsOutside, stop_wakeup_lost}
use breeze_js.EventLoop.Order.{FifoReach, at_start, fifo_step, of, oldest_first, fifo-order}
use breeze_js.EventLoop.Tasks.{in_hand}
use breeze_js.EventLoop.Spec.{Changes, no_tasks, posts, ends}
use breeze_js.EventLoop.Refines.{view, events, Reach-Changes}
use breeze_js.EventLoop.Drains.{loop-drains}

-- Task 5 is posted and run, and the JS thread goes to sleep.
ran : (s : State) × Reach initial s × (s.js ≡ sleeps) × (s.posted ≡ 5 ∷ [])
ran = (
  _,
  next
      (next
        (next
          (next
            (next
              (next
                (next
                  (next
                    (next
                      (next
                        (next (next (next here (enqueue 5)) (fetch_add 0 refl))
                          (lock_unlock 0 refl tt))
                        (notify_one 0 refl))
                      (try_dequeue [] [] 5 refl refl))
                    (in_time 5 refl tt))
                  (fetch_sub 5 refl))
                (run_task 5 refl))
              (dequeue_fails refl))
            (go_on refl (inl refl)))
          (lock_mutex refl))
        (pred_false refl refl refl))
      (block refl),
  refl,
  refl,
)

sleeps-done_example : count 5 (ran.0).done ≡ 1
unfolding ran
sleeps-done_example = sleeps-done ran.1 refl refl refl refl (omega arith) 5

-- Task 5 is posted, the loop is stopped with no grace, and only then is the task taken.
late : (s : State) × Reach initial s × (s.js ≡ has_task 5)
late = (
  _,
  next
      (next (next (next (next here (enqueue 5)) (fetch_add 0 refl)) (lock_unlock 0 refl tt))
        (set_deadline 0 refl))
      (try_dequeue [] [] 5 refl refl),
  refl,
)

abbrev late_dropped : State
unfolding late
late_dropped = record (late.0) { js = leaves; dropped = 5 ∷ [] }

too_late-never_exits_example : (late_dropped.js ≢ exited) × (late_dropped.stop ≢ joined)
unfolding late
too_late-never_exits_example =
    too_late-never_exits late.0 late_dropped 5 late.1 refl (omega arith) refl (λ e. cc)
      (omega arith) stay

-- The JS thread has found nothing to do and is about to sleep.
drowsy : (s : State) × Reach initial s × (s.js ≡ sleeps_next)
drowsy = (
  _,
  next (next (next (next here (dequeue_fails refl)) (go_on refl (inl refl))) (lock_mutex refl))
      (pred_false refl refl refl),
  refl,
)

stop_wakeup_lost_example :
    Reach drowsy.0 (stopped drowsy.0 100)
    × ((t : State) (st : Step (stopped drowsy.0 100) t) → IsOutside st)
unfolding drowsy
stop_wakeup_lost_example = stop_wakeup_lost drowsy.0 100 refl refl refl refl refl

-- Task 5 is posted and the loop is stopped with 100 milliseconds of grace.
graceful : (s : State) × Reach initial s × (s.js ≡ dequeues) × (s.posted ≡ 5 ∷ [])
graceful = (
  _,
  next (next (next (next here (enqueue 5)) (fetch_add 0 refl)) (lock_unlock 0 refl tt))
      (set_deadline 100 refl),
  refl,
  refl,
)

loop-drains_example :
    (t : State) × Reach graceful.0 t
    × (t.js ≡ exited)
    × ((a : ℕ) → count a t.done ≡ count a t.posted)
unfolding graceful
loop-drains_example = loop-drains graceful.1 tt (omega arith) refl refl (omega arith)

Reach-Changes_example :
    Changes no_tasks (events ran.1) (view ran.0)
    × ((a : ℕ)
        → posts a (events ran.1)
          ≡ ends a (events ran.1) + count a (in_hand (ran.0).js ++ (ran.0).queue))
Reach-Changes_example = Reach-Changes ran.1

-- One thread posts tasks 5 and 6, and the first has run.
one_thread : ℕ → ℕ
one_thread task = 0

first_ran :
    (s : State) × FifoReach one_thread initial s × (s.posted ≡ 5 ∷ 6 ∷ []) × (s.dropped ≡ [])
first_ran = (
  _,
  fifo_step
      (fifo_step
        (fifo_step
          (fifo_step (fifo_step (fifo_step at_start (enqueue 5) tt) (enqueue 6) tt)
            (try_dequeue [] (6 ∷ []) 5 refl refl) tt)
          (in_time 5 refl tt) tt)
        (fetch_sub 5 refl) tt)
      (run_task 5 refl) tt,
  refl,
  refl,
)

fifo-order_example :
    of one_thread 0 (first_ran.0).posted
    ≡ of one_thread 0 (oldest_first (first_ran.0).done)
      ++ (of one_thread 0 (in_hand (first_ran.0).js) ++ of one_thread 0 (first_ran.0).queue)
fifo-order_example = fifo-order one_thread 0 first_ran.1 first_ran.3
