-- ===== src/EventLoop/Shutdown.antt =====
-- The end of the loop: what the stopping thread can wait for.
use breeze_js.Prelude.{sizes, ℕ, ◌+◌, ◌≤◌, ◌<◌, ◌≡◌, ◌≢◌, ap, ◌∷◌, arith, length}
use breeze_js.EventLoop.{
  size_mod, JsPc, dequeues, has_task, subtracts, leaves, sleeps, exited, joined, State, Step,
  enqueue, fetch_add, lock_unlock, notify_one, try_dequeue, dequeue_fails, in_time, too_late,
  fetch_sub, run_task, break_loop, go_on, lock_mutex, pred_true, pred_false, block, wake_spuriously,
  set_deadline, notify_all, join, restart, tick, wake, IsLate, Reach, initial,
}
use breeze_js.EventLoop.Count.{held, IsCounted, Step-IsCounted, Reach-IsCounted}

-- The step is no new call of `post`.
abbrev pub IsOld : {s t : State} → Step s t → Type 0
IsOld (enqueue task) = ⊥
IsOld _ = Unit {0}

pub data ReachOld (s : State) : State → Type 0 where
  stay : ReachOld s s
  go : {t u : State} → ReachOld s t → (st : Step t u) → IsOld st → ReachOld s u

-- A task has been dropped, no increment is to come, and the tasks fit the counter.
pub record IsJammed (s : State) : Type 0 where
  pub counted : IsCounted s
  pub dropped_one : 0 < length s.dropped
  pub none_enqueued : s.enqueued ≡ 0
  pub fits : length s.queue + held s.js + length s.dropped < size_mod
  pub in_loop : s.js ≢ exited
  pub not_joined : s.stop ≢ joined

-- The test of `break` fails, since the counter still counts the dropped tasks.
jammed_size : {s : State} → IsJammed s → s.js ≡ leaves → s.size ≢ 0
jammed_size {s} j e z =
    omega (arith, j.counted.balanced, j.fits, j.dropped_one, j.none_enqueued, ap held e)

-- The facts of `IsJammed` that each step keeps for its own reason.
record Keeps (s t : State) : Type 0 where
  dropped_le : length s.dropped ≤ length t.dropped
  enqueued_le : t.enqueued ≤ s.enqueued
  total_le :
      length t.queue + held t.js + length t.dropped ≤ length s.queue + held s.js + length s.dropped

held-wake_le : (pc : JsPc) → held (wake pc) ≤ held pc
held-wake_le sleeps = omega arith
held-wake_le dequeues = omega arith
held-wake_le (has_task t) = omega arith
held-wake_le (subtracts t) = omega arith
held-wake_le _ = omega arith

moved-Keeps :
    {s : State} {pc pc' : JsPc} → s.js ≡ pc → held pc' ≤ held pc → Keeps s (record s { js = pc' })
moved-Keeps e q = omega (arith, ap held e)

Step-Keeps : {s t : State} (st : Step s t) → IsOld st → Keeps s t
Step-Keeps (enqueue task) o = absurd o
Step-Keeps (fetch_add n e) o = omega arith
Step-Keeps (lock_unlock n e u) o = omega arith
Step-Keeps {s} (notify_one n e) o = omega (arith, held-wake_le s.js)
Step-Keeps (try_dequeue before after task e q) o = grind (sizes, ap length q, ap held e)
Step-Keeps (dequeue_fails e) o = moved-Keeps e (omega arith)
Step-Keeps (in_time task e m) o = moved-Keeps e (omega arith)
Step-Keeps (too_late task e l) o = omega (arith, ap held e)
Step-Keeps (fetch_sub task e) o = omega (arith, ap held e)
Step-Keeps (run_task task e) o = omega (arith, ap held e)
Step-Keeps (break_loop e d z) o = moved-Keeps e (omega arith)
Step-Keeps (go_on e d) o = moved-Keeps e (omega arith)
Step-Keeps (lock_mutex e) o = moved-Keeps e (omega arith)
Step-Keeps (pred_true e d) o = moved-Keeps e (omega arith)
Step-Keeps (pred_false e d z) o = moved-Keeps e (omega arith)
Step-Keeps (block e) o = moved-Keeps e (omega arith)
Step-Keeps (wake_spuriously e) o = moved-Keeps e (omega arith)
Step-Keeps (set_deadline d e) o = omega arith
Step-Keeps {s} (notify_all e) o = omega (arith, held-wake_le s.js)
Step-Keeps (join e x) o = omega arith
Step-Keeps (restart e x) o = omega (arith, ap held x)
Step-Keeps tick o = omega arith

wake-ne_exited : (pc : JsPc) → pc ≢ exited → wake pc ≢ exited
wake-ne_exited sleeps h = λ e. cc
wake-ne_exited dequeues h = h
wake-ne_exited (has_task t) h = h
wake-ne_exited _ h = h

Step-in_loop : {s t : State} → IsJammed s → (st : Step s t) → t.js ≢ exited
Step-in_loop j (enqueue task) = j.in_loop
Step-in_loop j (fetch_add n e) = j.in_loop
Step-in_loop j (lock_unlock n e u) = j.in_loop
Step-in_loop {s} j (notify_one n e) = wake-ne_exited s.js j.in_loop
Step-in_loop j (try_dequeue before after task e q) = λ x. cc
Step-in_loop j (dequeue_fails e) = λ x. cc
Step-in_loop j (in_time task e m) = λ x. cc
Step-in_loop j (too_late task e l) = λ x. cc
Step-in_loop j (fetch_sub task e) = λ x. cc
Step-in_loop j (run_task task e) = λ x. cc
Step-in_loop j (break_loop e d z) = absurd (jammed_size j e z)
Step-in_loop j (go_on e d) = λ x. cc
Step-in_loop j (lock_mutex e) = λ x. cc
Step-in_loop j (pred_true e d) = λ x. cc
Step-in_loop j (pred_false e d z) = λ x. cc
Step-in_loop j (block e) = λ x. cc
Step-in_loop j (wake_spuriously e) = λ x. cc
Step-in_loop j (set_deadline d e) = j.in_loop
Step-in_loop {s} j (notify_all e) = wake-ne_exited s.js j.in_loop
Step-in_loop j (join e x) = absurd (j.in_loop x)
Step-in_loop j (restart e x) = λ y. cc
Step-in_loop j tick = j.in_loop

Step-not_joined : {s t : State} → IsJammed s → (st : Step s t) → t.stop ≢ joined
Step-not_joined j (join e x) = absurd (j.in_loop x)
Step-not_joined j (restart e x) = λ y. cc
Step-not_joined j (set_deadline d e) = λ x. cc
Step-not_joined j (notify_all e) = λ x. cc
Step-not_joined j (enqueue task) = j.not_joined
Step-not_joined j (fetch_add n e) = j.not_joined
Step-not_joined j (lock_unlock n e u) = j.not_joined
Step-not_joined j (notify_one n e) = j.not_joined
Step-not_joined j (try_dequeue before after task e q) = j.not_joined
Step-not_joined j (dequeue_fails e) = j.not_joined
Step-not_joined j (in_time task e m) = j.not_joined
Step-not_joined j (too_late task e l) = j.not_joined
Step-not_joined j (fetch_sub task e) = j.not_joined
Step-not_joined j (run_task task e) = j.not_joined
Step-not_joined j (break_loop e d z) = j.not_joined
Step-not_joined j (go_on e d) = j.not_joined
Step-not_joined j (lock_mutex e) = j.not_joined
Step-not_joined j (pred_true e d) = j.not_joined
Step-not_joined j (pred_false e d z) = j.not_joined
Step-not_joined j (block e) = j.not_joined
Step-not_joined j (wake_spuriously e) = j.not_joined
Step-not_joined j tick = j.not_joined

Step-IsJammed : {s t : State} (st : Step s t) → IsOld st → IsJammed s → IsJammed t
Step-IsJammed st o j =
    let k = Step-Keeps st o in
    record {
      counted = Step-IsCounted st j.counted;
      dropped_one = omega (arith, j.dropped_one, k.dropped_le);
      none_enqueued = omega (arith, j.none_enqueued, k.enqueued_le);
      fits = omega (arith, j.fits, k.total_le);
      in_loop = Step-in_loop j st;
      not_joined = Step-not_joined j st;
    }

ReachOld-IsJammed : {s t : State} → ReachOld s t → IsJammed s → IsJammed t
ReachOld-IsJammed stay j = j
ReachOld-IsJammed (go r st o) j = Step-IsJammed st o (ReachOld-IsJammed r j)

-- A task that is taken from the queue when the deadline has passed is dropped and stays in the
-- count. If then no thread stands between the `enqueue` and the `fetch_add` of `post`, the loop has
-- not been joined, and fewer than 2^64 tasks are queued or dropped, then whatever the threads do
-- but post again, the loop never ends, and the thread that joins it waits forever.
pub too_late-never_exits :
    (s u : State) (task : ℕ)
    → Reach initial s
    → s.js ≡ has_task task
    → IsLate s.deadline s.now
    → s.enqueued ≡ 0
    → s.stop ≢ joined
    → length s.queue + length s.dropped + 1 < size_mod
    → ReachOld (record s { js = leaves; dropped = task ∷ s.dropped }) u
    → (u.js ≢ exited) × (u.stop ≢ joined)
too_late-never_exits s u task r e late z nj small run =
    let st = too_late task e late in
    let j = ReachOld-IsJammed run (record {
      counted = Step-IsCounted st (Reach-IsCounted r);
      dropped_one = omega arith;
      none_enqueued = z;
      fits = omega arith;
      in_loop = λ x. cc;
      not_joined = nj;
    }) in
    (j.in_loop, j.not_joined)
