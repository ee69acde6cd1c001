-- ===== src/Bridge/Call.antt =====
-- The std::function that js_traits makes of a JS function (headers/breeze-js/quickjspp.hpp): how C++
-- calls back into the engine.
--
-- What JS_Call comes to, and the conversion of what it returns, are parameters. An argument is
-- converted without an exception.
pub mod Balance
pub mod Threads
use breeze_js.Prelude.{ℕ, zero, suc, Bool, List, [], ◌∷◌, ◌++◌, map, if◌then◌else◌}
use breeze_js.Prelude.Result.{Result, ok, throws}
use breeze_js.Bytes.{codes}
use breeze_js.Script.{fill, get_future}
use breeze_js.Bridge.{
  Thread, Context, is_on_js_thread, post_task, Held, arg, called, Act, create, free_value, call,
  convert, Use, uses_by,
}

-- One act for each of n arguments, from the i-th on.
abbrev pub for_args : (Held → Act) → ℕ → ℕ → List Act
for_args act i zero = []
for_args act i (suc n) = act (arg i) ∷ for_args act (suc i) n

-- JS_Call returns a new reference, or JS_EXCEPTION.
abbrev pub returned : {J : Type 0} → Result J → List Act
returned (ok j) = create called ∷ []
returned (throws e) = []

-- `work`
abbrev pub work : {J : Type 0} → Result J → ℕ → List Act
work js_call argc =
    for_args create 0 argc ++ (call Held.value ∷ (returned js_call ++ for_args free_value 0 argc))

-- detail::unwrap_free, for void and for another type
abbrev pub unwrap_free : Bool → List Act
unwrap_free is_void =
    if is_void then free_value called ∷ [] else convert called ∷ free_value called ∷ []

module _ {J R : Type 0} (unwrap : J → Result R) (is_void : Bool) where
  -- Behind `work`: the exception is thrown again, or the result is converted and freed.
  abbrev pub converted : Thread → Result J → List Use → Result R × List Use
  converted caller (throws e) uses = (throws e, uses)
  converted caller (ok j) uses = (unwrap j, uses ++ uses_by caller (unwrap_free is_void))

  -- The call, with `weak.expired()`.
  unfoldable pub call_function : Context → Bool → Result J → ℕ → Result R × List Use
  call_function c expired js_call argc =
      if expired
      then (throws (codes "qjs::Context is destroyed"), [])
      else if is_on_js_thread c
      then converted c.caller js_call (uses_by c.caller (work js_call argc))
      else converted c.caller (get_future (fill js_call))
          (post_task c (λ t. uses_by t (work js_call argc)))
