-- ===== src/Bridge/Await/References.antt =====
-- The references and the threads of `Value::await`.
use breeze_js.Prelude.{
  ℕ, ◌+◌, ◌≡◌, refl, ap, ◌∙◌, subst, sym, inl, inr, Bool-cases, Bool, true, false, List, [], ◌∷◌,
  ◌++◌, Option, none, some, if◌then◌else◌, arith, All, All-append,
}
use breeze_js.Bridge.{Context, Held, captured, Act, dup_value, free_value, Use}
use breeze_js.Bridge.Uses.{makes, gives_up, sum_of, use_sums, IsOnJs}
use breeze_js.Bridge.Await.{
  used, PromiseState, rejected, fulfilled, pending, no_promise, Look, Task, first_task, poll_fn,
  Await, poll_acts, poll_state, poll, start, resume, run_tasks, begun,
}

-- One reference to the value, if it is held.
abbrev pub one_if : Bool → (Held → Bool) → ℕ
one_if held p = if held then (if p captured then 1 else 0) else 0

abbrev pub Holds : Bool → List Use → Type 0
Holds held us = (p : Held → Bool) → sum_of (makes p) us ≡ sum_of (gives_up p) us + one_if held p

Holds-append :
    (held held' : Bool) (us vs : List Use)
    → Holds held us
    → ((p : Held → Bool)
        → sum_of (makes p) vs + one_if held p ≡ sum_of (gives_up p) vs + one_if held' p)
    → Holds held' (us ++ vs)
Holds-append held held' us vs h k p = grind (use_sums, h p, k p)

abbrev pub is_polling : Option Task → Bool
is_polling (some poll_fn) = true
is_polling _ = false

abbrev pub is_over : Option Task → Bool
is_over none = true
is_over _ = false

pub record IsHeld {V : Type 0} (a : Await V) : Type 0 where
  pub holds : Holds (is_polling a.posted) a.uses
  pub set_while_polling : a.has_poll_fn ≡ is_polling a.posted
  pub done_when_over : a.done ≡ is_over a.posted
  pub on_js : All IsOnJs a.uses

-- In a poll, at its start.
record IsPolling {V : Type 0} (a : Await V) : Type 0 where
  holds : Holds true a.uses
  set : a.has_poll_fn ≡ true
  not_done : a.done ≡ false
  on_js : All IsOnJs a.uses

module _ {V : Type 0} (c : Context) (self : V) (threaded : c.script_ctx ≡ true) where
  used-IsOnJs : (alive : Bool) (acts : List Act) → All IsOnJs (used c self alive acts)
  used-IsOnJs alive [] = tt
  used-IsOnJs alive (a ∷ acts) = (rw (threaded) refl, used-IsOnJs alive acts)

  uses-IsOnJs :
      (us : List Use) (alive : Bool) (acts : List Act)
      → All IsOnJs us
      → All IsOnJs (us ++ used c self alive acts)
  uses-IsOnJs us alive acts h = All-append IsOnJs us _ h (used-IsOnJs alive acts)

  poll_state-IsHeld :
      (s : PromiseState V) (a : Await V)
      → IsPolling a
      → IsHeld (poll_state c self s (record a { posted = none }))
  unfolding poll_state
  poll_state-IsHeld (rejected text) a k = record {
    holds = Holds-append true false a.uses _ k.holds (λ p. ground arith);
    set_while_polling = refl;
    done_when_over = refl;
    on_js = uses-IsOnJs a.uses true (poll_acts c self (rejected text)) k.on_js;
  }
  poll_state-IsHeld (fulfilled v) a k = record {
    holds = Holds-append true false a.uses _ k.holds (λ p. ground arith);
    set_while_polling = refl;
    done_when_over = refl;
    on_js = uses-IsOnJs a.uses true (poll_acts c self (fulfilled v)) k.on_js;
  }
  poll_state-IsHeld pending a k = record {
    holds = Holds-append true true a.uses _ k.holds (λ p. ground arith);
    set_while_polling = k.set;
    done_when_over = k.not_done;
    on_js = uses-IsOnJs a.uses true (poll_acts c self pending) k.on_js;
  }
  poll_state-IsHeld no_promise a k = record {
    holds = Holds-append true false a.uses _ k.holds (λ p. ground arith);
    set_while_polling = refl;
    done_when_over = refl;
    on_js = uses-IsOnJs a.uses true (poll_acts c self no_promise) k.on_js;
  }

  poll-IsHeld :
      (look : Look V) (a : Await V)
      → IsPolling a
      → IsHeld (poll c self look (record a { posted = none }))
  unfolding poll
  poll-IsHeld look a k = elim (Bool-cases look.expired) [
    | inl e ↦ rw (e) (record {
      holds = Holds-append true false a.uses _ k.holds (λ p. ground arith);
      set_while_polling = refl;
      done_when_over = refl;
      on_js = uses-IsOnJs a.uses false (free_value captured ∷ []) k.on_js;
    })
    | inr e ↦
        let e' : poll c self look (record a { posted = none })
            ≡ poll_state c self look.promise (record a { posted = none }) =
          rw (e) refl in
        subst IsHeld (sym e') (poll_state-IsHeld look.promise a k)
  ]

  -- The first task, with the reference that it takes.
  start-IsPolling :
      (a : Await V)
      → IsHeld a
      → a.posted ≡ some first_task
      → IsPolling (record a {
        has_poll_fn = true;
        uses = a.uses ++ used c self true (dup_value captured ∷ []);
      })
  start-IsPolling a k q = record {
    holds = Holds-append (is_polling a.posted) true a.uses _ k.holds (λ p. ground (arith, q));
    set = refl;
    not_done = k.done_when_over ∙ ap is_over q;
    on_js = uses-IsOnJs a.uses true (dup_value captured ∷ []) k.on_js;
  }

  start-IsHeld :
      (look : Look V) (a : Await V)
      → IsHeld a
      → a.posted ≡ some first_task
      → IsHeld (start c self look (record a { posted = none }))
  unfolding start
  start-IsHeld look a k q = elim (Bool-cases look.expired) [
    | inl e ↦ rw (e) (record {
      holds = subst (λ t. Holds (is_polling t) a.uses) q k.holds;
      set_while_polling = k.set_while_polling ∙ ap is_polling q;
      done_when_over = refl;
      on_js = k.on_js;
    })
    | inr e ↦
        let k' = start-IsPolling a k q in
        let e' : start c self look (record a { posted = none })
            ≡ poll c self look (record a {
              posted = none;
              has_poll_fn = true;
              uses = a.uses ++ used c self true (dup_value captured ∷ []);
            }) =
          rw (e) refl in
        subst IsHeld (sym e') (poll-IsHeld look _ k')
  ]

  resume-IsHeld :
      (task : Option Task) (look : Look V) (a : Await V)
      → a.posted ≡ task
      → IsHeld a
      → IsHeld (resume c self task look a)
  unfolding resume
  resume-IsHeld none look a q k = k
  resume-IsHeld (some first_task) look a q k = start-IsHeld look a k q
  resume-IsHeld (some poll_fn) look a q k = poll-IsHeld look a (record {
    holds = subst (λ t. Holds (is_polling t) a.uses) q k.holds;
    set = k.set_while_polling ∙ ap is_polling q;
    not_done = k.done_when_over ∙ ap is_over q;
    on_js = k.on_js;
  })

  pub run_tasks-IsHeld :
      (looks : List (Look V)) (a : Await V) → IsHeld a → IsHeld (run_tasks c self looks a)
  unfolding run_tasks
  run_tasks-IsHeld [] a k = k
  run_tasks-IsHeld (look ∷ looks) a k =
      run_tasks-IsHeld looks _ (resume-IsHeld a.posted look a refl k)

  pub begun-IsHeld : IsHeld (begun c self)
  begun-IsHeld = record {
    holds = λ p. refl;
    set_while_polling = refl;
    done_when_over = refl;
    on_js = tt;
  }
