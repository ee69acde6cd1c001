-- ===== src/EventLoop/Wakeup.antt =====
-- Why `post` locks `cv_mutex` between its `fetch_add` and its notify.
use breeze_js.Prelude.{
  ℕ, suc, ◌+◌, ◌<◌, ◌≡◌, ap, subst, ◌⊎◌, inl, inr, [], arith, length, nil_of_length,
}
use breeze_js.EventLoop.{
  size_mod, JsPc, sleeps_next, sleeps, State, Step, enqueue, fetch_add, lock_unlock, notify_one,
  try_dequeue, dequeue_fails, in_time, too_late, fetch_sub, run_task, break_loop, go_on, lock_mutex,
  pred_true, pred_false, block, wake_spuriously, set_deadline, notify_all, join, restart, tick,
  wake, IsUnlocked, Reach, here, next, initial,
}
use breeze_js.EventLoop.Count.{held, Reach-IsCounted}

-- While the JS thread is about to sleep or asleep, the counter is 0 or a thread in `post` has its
-- notify still to come; before the sleep, it has the lock still to come.
abbrev pub Watched : JsPc → ℕ → ℕ → ℕ → Type 0
Watched sleeps_next size added locked = (size ≡ 0) ⊎ (0 < added)
Watched sleeps size added locked = (size ≡ 0) ⊎ (0 < added + locked)
Watched _ size added locked = Unit {0}

abbrev pub IsWatched : State → Type 0
IsWatched s = Watched s.js s.size s.added s.locked

Watched-add :
    (pc : JsPc) (size added locked size' : ℕ)
    → Watched pc size added locked
    → Watched pc size' (suc added) locked
Watched-add sleeps_next size added locked size' h = inr (omega arith)
Watched-add sleeps size added locked size' h = inr (omega arith)
Watched-add _ size added locked size' h = tt

Watched-lock :
    (pc : JsPc) (size added locked : ℕ)
    → IsUnlocked pc
    → Watched pc size (suc added) locked
    → Watched pc size added (suc locked)
Watched-lock sleeps_next size added locked u h = absurd u
Watched-lock sleeps size added locked u h = omega arith
Watched-lock _ size added locked u h = tt

Watched-block :
    (size added locked : ℕ)
    → Watched sleeps_next size added locked
    → Watched sleeps size added locked
Watched-block size added locked h = omega arith

Watched-wake :
    (pc : JsPc) (size added locked locked' : ℕ)
    → Watched pc size added locked
    → Watched (wake pc) size added locked'
Watched-wake sleeps_next size added locked locked' h = h
Watched-wake sleeps size added locked locked' h = tt
Watched-wake _ size added locked locked' h = tt

Step-IsWatched : {s t : State} → Step s t → IsWatched s → IsWatched t
Step-IsWatched (enqueue task) h = h
Step-IsWatched {s} (fetch_add n e) h = Watched-add s.js s.size s.added s.locked _ h
Step-IsWatched {s} (lock_unlock n e u) h = Watched-lock s.js s.size n s.locked u (rw (← e) h)
Step-IsWatched {s} (notify_one n e) h = Watched-wake s.js s.size s.added s.locked n h
Step-IsWatched (try_dequeue before after task e q) h = tt
Step-IsWatched (dequeue_fails e) h = tt
Step-IsWatched (in_time task e m) h = tt
Step-IsWatched (too_late task e l) h = tt
Step-IsWatched (fetch_sub task e) h = tt
Step-IsWatched (run_task task e) h = tt
Step-IsWatched (break_loop e d z) h = tt
Step-IsWatched (go_on e d) h = tt
Step-IsWatched (lock_mutex e) h = tt
Step-IsWatched (pred_true e d) h = tt
Step-IsWatched (pred_false e d z) h = inl z
Step-IsWatched {s} (block e) h =
    Watched-block s.size s.added s.locked (subst (λ pc. Watched pc s.size s.added s.locked) e h)
Step-IsWatched (wake_spuriously e) h = tt
Step-IsWatched (set_deadline d e) h = h
Step-IsWatched {s} (notify_all e) h = Watched-wake s.js s.size s.added s.locked s.locked h
Step-IsWatched (join e x) h = h
Step-IsWatched (restart e x) h = tt
Step-IsWatched tick h = h

Reach-IsWatched : {s : State} → Reach initial s → IsWatched s
Reach-IsWatched here = tt
Reach-IsWatched (next r st) = Step-IsWatched st (Reach-IsWatched r)

-- The JS thread never sleeps over a task: in every reachable state in which it sleeps and no thread
-- is inside `post`, the queue is empty and nothing has been dropped, for fewer than 2^64 tasks
-- queued or dropped.
pub sleeps-queue :
    {s : State}
    → Reach initial s
    → s.js ≡ sleeps
    → s.enqueued ≡ 0
    → s.added ≡ 0
    → s.locked ≡ 0
    → length s.queue + length s.dropped < size_mod
    → (s.queue ≡ []) × (s.dropped ≡ [])
sleeps-queue {s} r e a b c small =
    let n = Reach-IsCounted r in
    let w = subst (λ pc. Watched pc s.size s.added s.locked) e (Reach-IsWatched r) in
    let empty : length s.queue + length s.dropped ≡ 0 =
      omega (arith, n.balanced, n.in_range, w, ap held e) in
    (nil_of_length s.queue (omega arith), nil_of_length s.dropped (omega arith))
