-- ===== src/EventLoop/Order.antt =====
-- The order of the tasks that one thread posts.
--
-- `moodycamel::ConcurrentQueue` documents that the elements of one producer come out in the order in
-- which it enqueued them; `IsFifo` says so of a step.
use breeze_js.Prelude.{
  ℕ, ◌≡◌, ◌≢◌, refl, sym, ap, ◌∙◌, ◌==◌, if◌then◌else◌, List, [], ◌∷◌, ◌++◌, append_assoc, arith,
  All, Bool-cases, inl, inr,
}
use breeze_js.EventLoop.{
  JsPc, State, Step, enqueue, fetch_add, lock_unlock, notify_one, try_dequeue, dequeues, subtracts,
  runs, leaves, locks, tests, sleeps_next, sleeps, exited, dequeue_fails, in_time, too_late,
  fetch_sub, run_task, break_loop, go_on, lock_mutex, pred_true, pred_false, block, wake_spuriously,
  set_deadline, notify_all, join, restart, tick, wake, initial,
}
use breeze_js.EventLoop.Tasks.{in_hand, in_hand-wake}

module _ (producer : ℕ → ℕ) where
  -- A task is taken only if no task of its producer stands before it.
  abbrev pub IsFifo : {s t : State} → Step s t → Type 0
  IsFifo (try_dequeue before after task e q) = All (λ x. producer x ≢ producer task) before
  IsFifo _ = Unit {0}

  pub data FifoReach (s : State) : State → Type 0 where
    at_start : FifoReach s s
    fifo_step : {t u : State} → FifoReach s t → (st : Step t u) → IsFifo st → FifoReach s u

  -- The tasks of one producer.
  abbrev pub of : ℕ → List ℕ → List ℕ
  of p [] = []
  of p (x ∷ xs) = if producer x == p then x ∷ of p xs else of p xs

  of-append : (p : ℕ) (xs ys : List ℕ) → of p (xs ++ ys) ≡ of p xs ++ of p ys
  of-append p [] ys = refl
  of-append p (x ∷ xs) ys = elim (Bool-cases (producer x == p)) [
    | inl e ↦ rw (e) (ap (λ l. x ∷ l) (of-append p xs ys))
    | inr e ↦ rw (e) (of-append p xs ys)
  ]

  -- A task that no task of its producer stands before might as well be the first.
  of-first :
      (p task : ℕ) (before after : List ℕ)
      → All (λ x. producer x ≢ producer task) before
      → of p (before ++ task ∷ after) ≡ of p (task ∷ (before ++ after))
  of-first p task [] after h = refl
  of-first p task (x ∷ before) after h =
      let rest = of-first p task before after h.1 in
      let same : producer x ≡ p → producer task ≢ p = λ e e'. h.0 (e ∙ sym e') in
      ground (arith, rest, same)

-- The tasks that have run, the oldest first.
abbrev pub oldest_first : List ℕ → List ℕ
oldest_first [] = []
oldest_first (x ∷ xs) = oldest_first xs ++ x ∷ []

-- The tasks that have run, the one at hand, and those in the queue.
abbrev all_tasks : State → List ℕ
all_tasks s = oldest_first s.done ++ (in_hand s.js ++ s.queue)

module _ (producer : ℕ → ℕ) (p : ℕ) where
  abbrev InOrder : State → Type 0
  InOrder s = s.dropped ≡ [] → of producer p s.posted ≡ of producer p (all_tasks s)

  moved-InOrder :
      (s : State) {pc : JsPc} (pc' : JsPc)
      → s.js ≡ pc
      → in_hand pc' ≡ in_hand pc
      → InOrder s
      → InOrder (record s { js = pc' })
  moved-InOrder s pc' e q h d =
      h d ∙ ap (λ l. of producer p (oldest_first s.done ++ (l ++ s.queue))) (ap in_hand e ∙ sym q)

  enqueue-InOrder :
      (s : State) (task : ℕ)
      → of producer p s.posted ≡ of producer p (all_tasks s)
      → of producer p (s.posted ++ task ∷ [])
        ≡ of producer p (oldest_first s.done ++ (in_hand s.js ++ (s.queue ++ task ∷ [])))
  enqueue-InOrder s task h =
      of-append producer p s.posted (task ∷ [])
      ∙ ap (λ l. l ++ of producer p (task ∷ [])) h
      ∙ sym (of-append producer p (all_tasks s) (task ∷ []))
      ∙ ap (of producer p) (simp append_assoc refl)

  -- A task that is taken goes in front of the queue.
  taken-InOrder :
      (s : State) (task : ℕ) (before after : List ℕ)
      → s.js ≡ dequeues
      → s.queue ≡ before ++ task ∷ after
      → All (λ x. producer x ≢ producer task) before
      → of producer p (all_tasks s)
        ≡ of producer p (oldest_first s.done ++ (task ∷ (before ++ after)))
  taken-InOrder s task before after e q f =
      let old = oldest_first s.done in
      ap (λ l. of producer p (old ++ (in_hand s.js ++ l))) q
      ∙ ap (λ l. of producer p (old ++ (l ++ (before ++ task ∷ after)))) (ap in_hand e)
      ∙ of-append producer p old (before ++ task ∷ after)
      ∙ ap (λ l. of producer p old ++ l) (of-first producer p task before after f)
      ∙ sym (of-append producer p old (task ∷ (before ++ after)))

  Step-InOrder : {s t : State} (st : Step s t) → IsFifo producer st → InOrder s → InOrder t
  Step-InOrder {s} (enqueue task) f h = λ d. enqueue-InOrder s task (h d)
  Step-InOrder (fetch_add n e) f h = h
  Step-InOrder (lock_unlock n e u) f h = h
  Step-InOrder {s} (notify_one n e) f h = moved-InOrder s (wake s.js) refl (in_hand-wake s.js) h
  Step-InOrder {s} (try_dequeue before after task e q) f h =
      λ d. h d ∙ taken-InOrder s task before after e q f
  Step-InOrder {s} (dequeue_fails e) f h = moved-InOrder s leaves e refl h
  Step-InOrder {s} (in_time task e m) f h = moved-InOrder s (subtracts task) e refl h
  Step-InOrder (too_late task e l) f h = λ d. cc d
  Step-InOrder {s} (fetch_sub task e) f h = moved-InOrder s (runs task) e refl h
  Step-InOrder {s} (run_task task e) f h = λ d.
      h d
      ∙ ap (λ l. of producer p (oldest_first s.done ++ (l ++ s.queue))) (ap in_hand e)
      ∙ ap (of producer p) (sym (append_assoc (oldest_first s.done) (task ∷ []) s.queue))
  Step-InOrder {s} (break_loop e d z) f h = moved-InOrder s exited e refl h
  Step-InOrder {s} (go_on e d) f h = moved-InOrder s locks e refl h
  Step-InOrder {s} (lock_mutex e) f h = moved-InOrder s tests e refl h
  Step-InOrder {s} (pred_true e d) f h = moved-InOrder s dequeues e refl h
  Step-InOrder {s} (pred_false e d z) f h = moved-InOrder s sleeps_next e refl h
  Step-InOrder {s} (block e) f h = moved-InOrder s sleeps e refl h
  Step-InOrder {s} (wake_spuriously e) f h = moved-InOrder s locks e refl h
  Step-InOrder (set_deadline d e) f h = h
  Step-InOrder {s} (notify_all e) f h = moved-InOrder s (wake s.js) refl (in_hand-wake s.js) h
  Step-InOrder (join e x) f h = h
  Step-InOrder {s} (restart e x) f h = moved-InOrder s dequeues x refl h
  Step-InOrder tick f h = h

  FifoReach-InOrder : {s : State} → FifoReach producer initial s → InOrder s
  FifoReach-InOrder at_start = λ d. refl
  FifoReach-InOrder (fifo_step r st f) = Step-InOrder st f (FifoReach-InOrder r)

  -- On runs that take tasks in the order of their producers, restarts included, and drop none: the
  -- tasks that a thread has posted, in its order, are those of its tasks that have run, the oldest
  -- first, then the one at hand, then those in the queue. So they run in the order in which they were
  -- posted, and none is skipped.
  pub fifo-order :
      {s : State}
      → FifoReach producer initial s
      → s.dropped ≡ []
      → of producer p s.posted
        ≡ of producer p (oldest_first s.done)
          ++ (of producer p (in_hand s.js) ++ of producer p s.queue)
  fifo-order {s} r d =
      FifoReach-InOrder r d
      ∙ of-append producer p (oldest_first s.done) (in_hand s.js ++ s.queue)
      ∙ ap (λ l. of producer p (oldest_first s.done) ++ l)
          (of-append producer p (in_hand s.js) s.queue)
