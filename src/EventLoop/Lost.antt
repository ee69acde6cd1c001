-- ===== src/EventLoop/Lost.antt =====
-- What becomes of a task that is dropped, and of a thread that waits for it.
use breeze_js.Prelude.{ℕ, ◌+◌, ◌≤◌, arith, count}
use breeze_js.EventLoop.{State, Step, Reach, here, next, initial}
use breeze_js.EventLoop.Spec.{occurrences, Change-lost}
use breeze_js.EventLoop.Refines.{Step-Change}
use breeze_js.EventLoop.Tasks.{Reach-IsKept}
use breeze_js.EventLoop.InTime.{Reach-trans}

Step-dropped : (a : ℕ) {s t : State} → Step s t → count a s.dropped ≤ count a t.dropped
unfolding occurrences
Step-dropped a st = Change-lost a (Step-Change st)

Reach-dropped : (a : ℕ) {s t : State} → Reach s t → count a s.dropped ≤ count a t.dropped
Reach-dropped a here = omega arith
Reach-dropped a (next r st) = omega (arith, Reach-dropped a r, Step-dropped a st)

-- A task that is dropped is never run, restarts of the loop included: from any reachable state on, a
-- task has been run at most as often as it has been posted less the times that it was dropped before.
-- So a thread that posts a task once, and waits for what the task tells it, waits forever if the task
-- is dropped.
dropped-done :
    (a : ℕ) {s t : State}
    → Reach initial s
    → Reach s t
    → count a t.done + count a s.dropped ≤ count a t.posted
dropped-done a r run = omega (arith, Reach-IsKept (Reach-trans r run) a, Reach-dropped a run)
