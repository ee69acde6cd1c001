-- ===== src/Bridge/Call/Balance.antt =====
-- What a call of a JS function returns, and its references.
use breeze_js.Prelude.{
  ℕ, zero, suc, ◌+◌, ◌≡◌, refl, ap, sym, subst, ◌∙◌, Bool, true, false, List, if◌then◌else◌, arith,
}
use breeze_js.Prelude.Result.{Result, ok, throws}
use breeze_js.Bytes.{codes}
use breeze_js.Bridge.{
  Thread, js_thread, other_thread, Context, post_task, Held, arg, Act, create, free_value, call,
  Use, uses_by,
}
use breeze_js.Bridge.Uses.{use_sums, makes, gives_up, sums, sum_of-uses_by, IsBalanced}
use breeze_js.Bridge.Call.{for_args, returned, work, converted, call_function}
use breeze_js.Script.{fill, get_future}

-- How many of the arguments are of this kind.
abbrev args : (Held → Bool) → ℕ → ℕ → ℕ
args p i zero = 0
args p i (suc n) = (if p (arg i) then 1 else 0) + args p (suc i) n

made_args : (p : Held → Bool) (i n : ℕ) → sums (makes p) (for_args create i n) ≡ args p i n
made_args p i zero = refl
made_args p i (suc n) = omega (arith, made_args p (suc i) n)

freed_args : (p : Held → Bool) (i n : ℕ) → sums (gives_up p) (for_args free_value i n) ≡ args p i n
freed_args p i zero = refl
freed_args p i (suc n) = omega (arith, freed_args p (suc i) n)

not_made : (p : Held → Bool) (i n : ℕ) → sums (makes p) (for_args free_value i n) ≡ 0
not_made p i zero = refl
not_made p i (suc n) = omega (arith, not_made p (suc i) n)

not_freed : (p : Held → Bool) (i n : ℕ) → sums (gives_up p) (for_args create i n) ≡ 0
not_freed p i zero = refl
not_freed p i (suc n) = omega (arith, not_freed p (suc i) n)

returned-not_freed :
    {J : Type 0} (p : Held → Bool) (r : Result J) → sums (gives_up p) (returned r) ≡ 0
returned-not_freed p (ok j) = refl
returned-not_freed p (throws e) = refl

module _ {J : Type 0} (r : Result J) (argc : ℕ) where
  sums-work :
      (f : Act → ℕ)
      → sums f (work r argc)
        ≡ sums f (for_args create 0 argc)
          + (f (call Held.value) + (sums f (returned r) + sums f (for_args free_value 0 argc)))
  sums-work f = grind use_sums

  -- The arguments are given up, and what JS_Call returns is left.
  work-left :
      (p : Held → Bool)
      → sums (makes p) (work r argc) ≡ sums (gives_up p) (work r argc) + sums (makes p) (returned r)
  work-left p = omega (
    arith,
    sums-work (makes p),
    sums-work (gives_up p),
    made_args p 0 argc,
    freed_args p 0 argc,
    not_made p 0 argc,
    not_freed p 0 argc,
    returned-not_freed p r,
  )

module _ {J R : Type 0} (unwrap : J → Result R) (is_void : Bool) where
  -- Whatever thread does the work, the conversion balances it.
  converted-IsBalanced :
      (caller t : Thread) (r : Result J) (argc : ℕ)
      → IsBalanced (converted unwrap is_void caller r (uses_by t (work r argc))).1
  converted-IsBalanced caller t (ok j) argc p = grind (use_sums, work-left (ok j) argc p)
  converted-IsBalanced caller t (throws e) argc p = omega (
    arith,
    sum_of-uses_by (makes p) t (work (throws e) argc),
    sum_of-uses_by (gives_up p) t (work (throws e) argc),
    work-left (throws e) argc p,
  )

  -- What a call on the JS thread of a living context comes to.
  abbrev pub call_outcome : Bool → Result J → Result R
  call_outcome true r = throws (codes "qjs::Context is destroyed")
  call_outcome false (throws e) = throws e
  call_outcome false (ok j) = unwrap j

  converted-outcome :
      (caller : Thread) (r : Result J) (us : List Use)
      → (converted unwrap is_void caller r us).0 ≡ call_outcome false r
  converted-outcome caller (ok j) us = refl
  converted-outcome caller (throws e) us = refl

  get_future-fill : (r : Result J) → get_future (fill r) ≡ r
  get_future-fill (ok j) = refl
  get_future-fill (throws e) = refl

  -- The work is done by the thread that runs posted tasks, also where the caller does it at once.
  works_on :
      (b : Bool) (t : Thread) (r : Result J) (argc : ℕ)
      → let c : Context = record { script_ctx = b; caller = t } in
        call_function unwrap is_void c false r argc
        ≡ converted unwrap is_void t r (uses_by (post_task c (λ u. u)) (work r argc))
  unfolding call_function
  works_on true js_thread r argc = refl
  works_on true other_thread r argc =
      ap (λ q. converted unwrap is_void other_thread q (uses_by js_thread (work r argc)))
        (get_future-fill r)
  works_on false t r argc = refl

  pub call_function-works :
      (c : Context) (r : Result J) (argc : ℕ)
      → call_function unwrap is_void c false r argc
        ≡ converted unwrap is_void c.caller r (uses_by (post_task c (λ t. t)) (work r argc))
  call_function-works c r argc = works_on c.script_ctx c.caller r argc

  -- A call of a JS function from C++ comes to the same from every thread and with every script_ctx:
  -- it throws if the context is gone, throws the exception of the call, or converts its result. In
  -- every case each reference to an argument or to the result is given up as often as it was made.
  pub call_function-outcome :
      (c : Context) (expired : Bool) (r : Result J) (argc : ℕ)
      → ((call_function unwrap is_void c expired r argc).0 ≡ call_outcome expired r)
        × IsBalanced (call_function unwrap is_void c expired r argc).1
  unfolding call_function
  call_function-outcome c true r argc = (refl, λ p. refl)
  call_function-outcome c false r argc =
      let e = call_function-works c r argc in
      (
        ap (λ q. q.0) e ∙ converted-outcome c.caller r _,
        subst (λ q. IsBalanced q.1) (sym e) (converted-IsBalanced c.caller _ r argc),
      )
