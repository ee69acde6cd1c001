-- ===== src/EventLoop/Drains.antt =====
-- What the loop does with a queue that nobody adds to, up to its sleep or its end.
use breeze_js.Prelude.{
  ◌≢◌, ◌⊎◌, ℕ, ◌+◌, ◌≤◌, ◌<◌, ◌≡◌, refl, ap, sym, ◌∙◌, subst, inl, inr, List, [], ◌∷◌, Option, none,
  some, arith, length, count,
}
use breeze_js.EventLoop.{
  size_mod, JsPc, dequeues, has_task, subtracts, runs, leaves, locks, tests, sleeps_next, sleeps,
  exited, State, Step, try_dequeue, dequeue_fails, in_time, fetch_sub, run_task, break_loop, go_on,
  lock_mutex, pred_true, pred_false, block, IsGiven, MayRun, Reach, here, next, initial,
}
use breeze_js.EventLoop.Count.{held, Reach-IsCounted}
use breeze_js.EventLoop.InTime.{Reach-trans, InTime, InTime-step, held_le, InTime-size}
use breeze_js.EventLoop.Tasks.{in_hand, Reach-IsKept}

-- The JS thread is in its loop and neither sleeps nor is about to.
abbrev pub IsAwake : JsPc → Type 0
IsAwake sleeps_next = ⊥
IsAwake sleeps = ⊥
IsAwake exited = ⊥
IsAwake _ = Unit {0}

-- Where the loop comes to rest.
abbrev pub rest_of : Option ℕ → JsPc
rest_of none = sleeps
rest_of (some d) = exited

-- From s the loop can come to rest with nothing left in the queue and nothing dropped.
abbrev pub Drains : State → Type 0
Drains s = (t : State) × Reach s t × (t.js ≡ rest_of s.deadline) × (t.queue ≡ []) × (t.dropped ≡ [])

-- A step drains if what is behind it does.
Drains-step : {s t : State} → Step s t → t.deadline ≡ s.deadline → Drains t → Drains s
Drains-step st d (t, r, e, q, o) = (t, Reach-trans (next here st) r, e ∙ ap rest_of d, q, o)

-- The JS thread goes from pc to pc', with nothing else changed.
module _ (s : State) {pc : JsPc} (pc' : JsPc) (e : s.js ≡ pc) where
  moves-Drains :
      held pc' ≤ held pc
      → Step s (record s { js = pc' })
      → InTime s
      → (InTime (record s { js = pc' }) → Drains (record s { js = pc' }))
      → Drains s
  moves-Drains h st g k =
      Drains-step st refl (k (InTime-step st refl refl refl refl (omega (arith, h, ap held e)) g))

-- With no task left and no deadline, the loop sleeps.
dozes : (s : State) → s.deadline ≡ none → s.js ≡ tests → s.queue ≡ [] → InTime s → Drains s
dozes s d e q g =
    let z : s.size ≡ 0 = omega (arith, InTime-size g, ap length q, ap held e) in
    Drains-step (pred_false e d z) refl
      (Drains-step (block refl) refl (_, here, sym (ap rest_of d), q, g.none_dropped))

-- With no task left, the loop ends if a deadline is given.
leaves-Drains :
    (o : Option ℕ) (s : State) → s.deadline ≡ o → s.js ≡ leaves → s.queue ≡ [] → InTime s → Drains s
leaves-Drains none s d e q g = moves-Drains s locks e (omega arith) (go_on e (inl d)) g (λ g.
    moves-Drains (record s { js = locks }) tests refl (omega arith) (lock_mutex refl) g
      (dozes (record s { js = tests }) d refl q))
leaves-Drains (some x) s d e q g =
    let z : s.size ≡ 0 = omega (arith, InTime-size g, ap length q, ap held e) in
    Drains-step (break_loop e (subst IsGiven (sym d) tt) z) refl
      (_, here, sym (ap rest_of d), q, g.none_dropped)

-- Once the task at hand is counted off, it runs and the loop goes on.
module _ (queue : List ℕ)
    (drained : (t : State) → t.js ≡ dequeues → t.queue ≡ queue → InTime t → Drains t) where
  runs-Drains : (u : State) (task : ℕ) → u.js ≡ runs task → u.queue ≡ queue → InTime u → Drains u
  runs-Drains u task e q g =
      let st = run_task task e in
      Drains-step st refl
        (drained _ refl q (InTime-step st refl refl refl refl (omega (arith, ap held e)) g))

  subtracts-Drains :
      (u : State) (task : ℕ) → u.js ≡ subtracts task → u.queue ≡ queue → InTime u → Drains u
  subtracts-Drains u task e q g =
      let st = fetch_sub task e in
      Drains-step st refl (
        runs-Drains _ task refl q (InTime-step st refl refl refl refl (omega (arith, ap held e)) g))

  has_task-Drains :
      (u : State) (task : ℕ) → u.js ≡ has_task task → u.queue ≡ queue → InTime u → Drains u
  has_task-Drains u task e q g =
      moves-Drains u (subtracts task) e (omega arith) (in_time task e g.early) g
        (subtracts-Drains (record u { js = subtracts task }) task refl q)

dequeues-Drains :
    (queue : List ℕ) (s : State) → s.js ≡ dequeues → s.queue ≡ queue → InTime s → Drains s
dequeues-Drains [] s e q g =
    moves-Drains s leaves e (omega arith) (dequeue_fails e) g
      (leaves-Drains s.deadline (record s { js = leaves }) refl refl q)
dequeues-Drains (task ∷ rest) s e q g =
    let st = try_dequeue [] rest task e q in
    Drains-step st refl (
      has_task-Drains rest (dequeues-Drains rest) _ task refl refl
        (InTime-step st refl refl refl refl (omega (arith, ap held e, ap length q)) g))

-- The predicate is true if a deadline is given or a task is left.
module _ (s : State) where
  wakes-Drains : s.js ≡ tests → IsGiven s.deadline ⊎ (s.size ≢ 0) → InTime s → Drains s
  wakes-Drains e h g =
      moves-Drains s dequeues e (omega arith) (pred_true e h) g
        (dequeues-Drains s.queue (record s { js = dequeues }) refl refl)

  tests-Drains :
      (o : Option ℕ) (queue : List ℕ)
      → s.deadline ≡ o
      → s.queue ≡ queue
      → s.js ≡ tests
      → InTime s
      → Drains s
  tests-Drains (some x) queue d q e g = wakes-Drains e (inl (subst IsGiven (sym d) tt)) g
  tests-Drains none [] d q e g = dozes s d e q g
  tests-Drains none (task ∷ rest) d q e g =
      let some_left : s.size ≢ 0 = λ z. omega (arith, z, InTime-size g, ap length q) in
      wakes-Drains e (inr some_left) g

locks-Drains : (s : State) → s.js ≡ locks → InTime s → Drains s
locks-Drains s e g =
    moves-Drains s tests e (omega arith) (lock_mutex e) g
      (tests-Drains (record s { js = tests }) s.deadline s.queue refl refl refl)

queue-Drains : (s : State) (queue : List ℕ) → s.queue ≡ queue → s.js ≡ leaves → InTime s → Drains s
queue-Drains s [] q e g = leaves-Drains s.deadline s refl e q g
queue-Drains s (task ∷ rest) q e g =
    let some_left : s.size ≢ 0 = λ z. omega (arith, z, InTime-size g, ap length q) in
    moves-Drains s locks e (omega arith) (go_on e (inr some_left)) g
      (locks-Drains (record s { js = locks }) refl)

awake-Drains : (pc : JsPc) (s : State) → s.js ≡ pc → IsAwake pc → InTime s → Drains s
awake-Drains dequeues s e a g = dequeues-Drains s.queue s e refl g
awake-Drains (has_task task) s e a g =
    has_task-Drains s.queue (dequeues-Drains s.queue) s task e refl g
awake-Drains (subtracts task) s e a g =
    subtracts-Drains s.queue (dequeues-Drains s.queue) s task e refl g
awake-Drains (runs task) s e a g = runs-Drains s.queue (dequeues-Drains s.queue) s task e refl g
awake-Drains leaves s e a g = queue-Drains s s.queue refl e g
awake-Drains locks s e a g = locks-Drains s e g
awake-Drains tests s e a g = tests-Drains s s.deadline s.queue refl refl e g
awake-Drains sleeps_next s e a g = absurd a
awake-Drains sleeps s e a g = absurd a
awake-Drains exited s e a g = absurd a

in_hand-rest : (o : Option ℕ) → in_hand (rest_of o) ≡ []
in_hand-rest none = refl
in_hand-rest (some d) = refl

-- In every reachable state in which the deadline, if one is given, has not passed, nothing has been
-- dropped, no thread stands between the `enqueue` and the `fetch_add` of `post`, fewer than 2^64 - 1
-- tasks are queued, and the JS thread is in its loop and neither sleeps nor is about to, the loop can
-- come to rest, asleep or, if a deadline is given, at its end, with every task run that was posted, as
-- often as it was posted.
pub loop-drains :
    {s : State}
    → Reach initial s
    → IsAwake s.js
    → MayRun s.deadline s.now
    → s.dropped ≡ []
    → s.enqueued ≡ 0
    → length s.queue + 1 < size_mod
    → (t : State) × Reach s t
      × (t.js ≡ rest_of s.deadline)
      × ((a : ℕ) → count a t.done ≡ count a t.posted)
loop-drains {s} r a m n z small =
    let g : InTime s = record {
      counted = Reach-IsCounted r;
      early = m;
      none_dropped = n;
      none_enqueued = z;
      fits = omega (arith, small, held_le s.js);
    } in
    let (t, run, e, q, lost) = awake-Drains s.js s refl a g in
    (
      t,
      run,
      e,
      λ a. omega (
        arith,
        Reach-IsKept (Reach-trans r run) a,
        ap (count a) q,
        ap (count a) lost,
        ap (λ pc. count a (in_hand pc)) e,
        ap (count a) (in_hand-rest s.deadline),
      ),
    )
