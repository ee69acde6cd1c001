-- ===== src/Bridge/Call/Threads.antt =====
-- Which thread uses the engine in a call of a JS function.
use breeze_js.Prelude.{
  ℕ, ◌≡◌, refl, ◌↔◌, Bool, true, false, ◌||◌, List, [], ◌∷◌, ◌++◌, All, All-append,
}
use breeze_js.Prelude.Result.{Result, ok, throws}
use breeze_js.Bridge.{
  Thread, js_thread, other_thread, Context, is_on_js_thread, is_js_thread, Act, Use, uses_by,
}
use breeze_js.Bridge.Uses.{IsOnJs}
use breeze_js.Bridge.Call.{work, unwrap_free, converted, call_function}
use breeze_js.Bridge.Call.Balance.{call_function-works}

abbrev pub is_throws : {J : Type 0} → Result J → Bool
is_throws (throws e) = true
is_throws (ok j) = false

uses_by-IsOnJs : (acts : List Act) → All IsOnJs (uses_by js_thread acts)
uses_by-IsOnJs [] = tt
uses_by-IsOnJs (a ∷ acts) = (refl, uses_by-IsOnJs acts)

-- The conversion uses the engine.
not-unwrap_free :
    (b : Bool) (us : List Use) → ¬ All IsOnJs (us ++ uses_by other_thread (unwrap_free b))
not-unwrap_free true [] h = absurd (cc h.0)
not-unwrap_free false [] h = absurd (cc h.0)
not-unwrap_free b (u ∷ us) h = not-unwrap_free b us h.1

module _ {J R : Type 0} (unwrap : J → Result R) (is_void : Bool) where
  converted-IsOnJs :
      (t : Thread) (r : Result J) (acts : List Act)
      → All IsOnJs (converted unwrap is_void t r (uses_by js_thread acts)).1
        ↔ ((is_js_thread t || is_throws r) ≡ true)
  converted-IsOnJs js_thread (ok j) acts = (
    λ h. refl,
    λ h. All-append IsOnJs _ _ (uses_by-IsOnJs acts) (uses_by-IsOnJs (unwrap_free is_void)),
  )
  converted-IsOnJs other_thread (ok j) acts =
      (λ h. absurd (not-unwrap_free is_void _ h), λ h. absurd (cc h))
  converted-IsOnJs js_thread (throws e) acts = (λ h. refl, λ h. uses_by-IsOnJs acts)
  converted-IsOnJs other_thread (throws e) acts = (λ h. refl, λ h. uses_by-IsOnJs acts)

  -- In a living context with a script_ctx, a call of a JS function uses the engine on the JS thread
  -- alone exactly if the caller is on the JS thread or the call throws: in the call from another thread
  -- that returns a value, the caller itself converts and frees the value.
  pub call_function-IsOnJs_iff :
      (c : Context) (r : Result J) (argc : ℕ)
      → c.script_ctx ≡ true
      → All IsOnJs (call_function unwrap is_void c false r argc).1
        ↔ ((is_on_js_thread c || is_throws r) ≡ true)
  call_function-IsOnJs_iff c r argc threaded =
      rw (call_function-works unwrap is_void c r argc, threaded)
        (converted-IsOnJs c.caller r (work r argc))
