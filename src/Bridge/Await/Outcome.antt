-- ===== src/Bridge/Await/Outcome.antt =====
-- What `Value::await` returns.
use breeze_js.Prelude.{
  ◌≡◌, refl, sym, ap, subst, ◌∙◌, ◌++◌, inl, inr, Option-cases, Bool-cases, true, false, List, [],
  ◌∷◌, Option, none, some, if◌then◌else◌,
}
use breeze_js.Prelude.Result.{Result, ok, throws}
use breeze_js.Bridge.{Context, captured, dup_value}
use breeze_js.Bridge.Await.{
  used, PromiseState, rejected, fulfilled, pending, no_promise, Look, Task, first_task, poll_fn,
  Await, context_destroyed, rejection_text, poll_state, poll, start, resume, run_posted, run_tasks,
  finished, await,
}

-- What one look says: nothing as long as the promise is pending.
abbrev pub state_outcome : {V : Type 0} → V → PromiseState V → Option (Result V)
state_outcome self (rejected text) = some (throws (rejection_text text))
state_outcome self (fulfilled v) = some (ok v)
state_outcome self pending = none
state_outcome self no_promise = some (ok self)

abbrev pub outcome : {V : Type 0} → V → Look V → Option (Result V)
outcome self look =
    if look.expired then some (throws context_destroyed) else state_outcome self look.promise

abbrev pub or_else : {A : Type 0} → Option A → Option A → Option A
or_else none o = o
or_else (some a) o = some a

-- The first look that says something.
abbrev pub first_outcome : {V : Type 0} → V → List (Look V) → Option (Result V)
first_outcome self [] = none
first_outcome self (look ∷ looks) = or_else (outcome self look) (first_outcome self looks)

abbrev IsWaiting : {V : Type 0} → Await V → Type 0
IsWaiting a = (a.done ≡ false) × (a.result ≡ none) × (a.error ≡ none)

-- Behind a task that has found an outcome.
abbrev Follows : {V : Type 0} → Await V → Option (Result V) → Type 0
Follows a none = IsWaiting a × (a.posted ≡ some poll_fn)
Follows a (some r) = (finished a ≡ some r) × (a.posted ≡ none)

module _ {V : Type 0} (c : Context) (self : V) where
  poll_state-Follows :
      (s : PromiseState V) (a : Await V)
      → IsWaiting a
      → a.posted ≡ none
      → Follows (poll_state c self s a) (state_outcome self s)
  unfolding poll_state
  poll_state-Follows (rejected text) a w p = (refl, p)
  poll_state-Follows (fulfilled v) a w p = (rw (w.2) refl, p)
  poll_state-Follows pending a w p = (w, refl)
  poll_state-Follows no_promise a w p = (rw (w.2) refl, p)

  poll-Follows :
      (look : Look V) (a : Await V)
      → IsWaiting a
      → a.posted ≡ none
      → Follows (poll c self look a) (outcome self look)
  unfolding poll
  poll-Follows look a w p = elim (Bool-cases look.expired) [
    | inl e ↦ rw (e) (refl, p)
    | inr e ↦ rw (e) (poll_state-Follows look.promise a w p)
  ]

  start-Follows :
      (look : Look V) (a : Await V)
      → IsWaiting a
      → a.posted ≡ none
      → Follows (start c self look a) (outcome self look)
  unfolding start
  start-Follows look a w p = elim (Bool-cases look.expired) [
    | inl e ↦ rw (e) (refl, p)
    | inr e ↦
        let e' : start c self look a
            ≡ poll c self look (record a {
              has_poll_fn = true;
              uses = a.uses ++ used c self true (dup_value captured ∷ []);
            }) =
          rw (e) refl in
        subst (λ b. Follows b (outcome self look)) (sym e') (poll-Follows look _ w p)
  ]

  run_posted-Follows :
      (look : Look V) (a : Await V) (task : Task)
      → IsWaiting a
      → a.posted ≡ some task
      → Follows (run_posted c self look a) (outcome self look)
  unfolding resume
  run_posted-Follows look a first_task w p = rw (p) (start-Follows look _ w refl)
  run_posted-Follows look a poll_fn w p = rw (p) (poll-Follows look _ w refl)

  run_posted-none : (look : Look V) (a : Await V) → a.posted ≡ none → run_posted c self look a ≡ a
  unfolding resume
  run_posted-none look a p = ap (λ o. resume c self o look a) p

  -- Nothing is posted, and nothing happens.
  pub run_tasks-end :
      (looks : List (Look V)) (a : Await V) → a.posted ≡ none → run_tasks c self looks a ≡ a
  unfolding run_tasks
  run_tasks-end [] a p = refl
  run_tasks-end (look ∷ looks) a p =
      ap (run_tasks c self looks) (run_posted-none look a p) ∙ run_tasks-end looks a p

  run_tasks-outcome :
      (looks : List (Look V)) (a : Await V) (task : Task)
      → IsWaiting a
      → a.posted ≡ some task
      → finished (run_tasks c self looks a) ≡ first_outcome self looks
  unfolding run_tasks
  run_tasks-outcome [] a task w p = rw (w.0) refl
  run_tasks-outcome (look ∷ looks) a task w p =
      let f = run_posted-Follows look a task w p in
      elim (Option-cases (outcome self look)) [
        | inl e ↦
            let (w', p') = subst (Follows (run_posted c self look a)) e f in
            run_tasks-outcome looks _ poll_fn w' p'
            ∙ ap (λ o. or_else o (first_outcome self looks)) (sym e)
        | inr (r, e) ↦
            let (g, p') = subst (Follows (run_posted c self look a)) e f in
            ap finished (run_tasks-end looks _ p')
            ∙ g
            ∙ ap (λ o. or_else o (first_outcome self looks)) (sym e)
      ]

  -- Value::await on a value with a context returns what the first task that does not find the promise
  -- pending finds: it throws the text of the rejection, returns the result or the value that is no
  -- promise, or throws if the context is gone; and it waits as long as every task finds the promise
  -- pending.
  pub await-outcome : (looks : List (Look V)) → await c true self looks ≡ first_outcome self looks
  unfolding await
  await-outcome looks = run_tasks-outcome looks _ first_task (refl, refl, refl) refl
