-- ===== src/EventLoop/Tasks.antt =====
-- Where each posted task is.
use breeze_js.Prelude.{sizes, ℕ, ◌+◌, ◌≡◌, refl, ap, List, [], ◌∷◌, arith, length, count, ◌<◌}
use breeze_js.EventLoop.{
  dequeues, leaves, locks, tests, sleeps_next, exited, size_mod, JsPc, has_task, subtracts, runs,
  sleeps, State, Step, enqueue, fetch_add, lock_unlock, notify_one, try_dequeue, dequeue_fails,
  in_time, too_late, fetch_sub, run_task, break_loop, go_on, lock_mutex, pred_true, pred_false,
  block, wake_spuriously, set_deadline, notify_all, join, restart, tick, wake, Reach, here, next,
  initial,
}
use breeze_js.EventLoop.Wakeup.{sleeps-queue}

-- The task that the JS thread has in hand.
abbrev pub in_hand : JsPc → List ℕ
in_hand (has_task t) = t ∷ []
in_hand (subtracts t) = t ∷ []
in_hand (runs t) = t ∷ []
in_hand _ = []

-- Each task, as often as it was posted, is queued, in hand, done or dropped.
abbrev pub IsKept : State → Type 0
IsKept s =
    (a : ℕ)
    → count a s.posted
      ≡ count a s.queue + count a (in_hand s.js) + count a s.done + count a s.dropped

pub in_hand-wake : (pc : JsPc) → in_hand (wake pc) ≡ in_hand pc
in_hand-wake sleeps = refl
in_hand-wake _ = refl

-- The JS thread goes on with what it has in hand.
moved-IsKept :
    (s : State) {pc : JsPc} (pc' : JsPc)
    → s.js ≡ pc
    → in_hand pc' ≡ in_hand pc
    → IsKept s
    → IsKept (record s { js = pc' })
moved-IsKept s pc' e q h =
    λ a. omega (arith, h a, ap (λ pc. count a (in_hand pc)) e, ap (count a) q)

Step-IsKept : {s t : State} → Step s t → IsKept s → IsKept t
Step-IsKept (enqueue task) h = λ a. grind (sizes, h a)
Step-IsKept (fetch_add n e) h = h
Step-IsKept (lock_unlock n e u) h = h
Step-IsKept {s} (notify_one n e) h = rw (in_hand-wake s.js) h
Step-IsKept (try_dequeue before after task e q) h =
    λ a. grind (sizes, h a, ap (count a) q, ap (λ pc. count a (in_hand pc)) e)
Step-IsKept {s} (dequeue_fails e) h = moved-IsKept s leaves e refl h
Step-IsKept {s} (in_time task e m) h = moved-IsKept s (subtracts task) e refl h
Step-IsKept (too_late task e l) h = λ a. omega (arith, h a, ap (λ pc. count a (in_hand pc)) e)
Step-IsKept {s} (fetch_sub task e) h = moved-IsKept s (runs task) e refl h
Step-IsKept (run_task task e) h = λ a. omega (arith, h a, ap (λ pc. count a (in_hand pc)) e)
Step-IsKept {s} (break_loop e d z) h = moved-IsKept s exited e refl h
Step-IsKept {s} (go_on e d) h = moved-IsKept s locks e refl h
Step-IsKept {s} (lock_mutex e) h = moved-IsKept s tests e refl h
Step-IsKept {s} (pred_true e d) h = moved-IsKept s dequeues e refl h
Step-IsKept {s} (pred_false e d z) h = moved-IsKept s sleeps_next e refl h
Step-IsKept {s} (block e) h = moved-IsKept s sleeps e refl h
Step-IsKept {s} (wake_spuriously e) h = moved-IsKept s locks e refl h
Step-IsKept (set_deadline d e) h = h
Step-IsKept {s} (notify_all e) h = rw (in_hand-wake s.js) h
Step-IsKept (join e x) h = h
Step-IsKept (restart e x) h = λ a. omega (arith, h a, ap (λ pc. count a (in_hand pc)) x)
Step-IsKept tick h = h

pub Reach-IsKept : {s : State} → Reach initial s → IsKept s
Reach-IsKept here = λ a. refl
Reach-IsKept (next r st) = Step-IsKept st (Reach-IsKept r)

-- In every reachable state in which the JS thread sleeps and no thread is inside `post`, every task
-- that was posted has been run, as often as it was posted, for fewer than 2^64 tasks queued or
-- dropped.
pub sleeps-done :
    {s : State}
    → Reach initial s
    → s.js ≡ sleeps
    → s.enqueued ≡ 0
    → s.added ≡ 0
    → s.locked ≡ 0
    → length s.queue + length s.dropped < size_mod
    → (a : ℕ) → count a s.done ≡ count a s.posted
sleeps-done {s} r e x y z small a =
    let (q, d) = sleeps-queue r e x y z small in
    omega
      (arith, Reach-IsKept r a, ap (count a) q, ap (count a) d, ap (λ pc. count a (in_hand pc)) e)
