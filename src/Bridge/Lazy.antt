-- ===== src/Bridge/Lazy.antt =====
-- The promise that js_traits makes of an async_simple::coro::Lazy (headers/breeze-js/quickjspp.hpp),
-- where its class is registered: what `wrap` does, and what the coroutine's end does.
pub mod Settled
use breeze_js.Prelude.{Bool, true, false, List, [], ◌∷◌, ◌++◌, Option, none, some, if◌then◌else◌}
use breeze_js.Prelude.Result.{Result, ok, throws}
use breeze_js.Bytes.{Bytes, codes}
use breeze_js.Bridge.{
  Context, post_task, holder, promise, resolve, reject, error_value, resolved_value, Act, dup_value,
  create, free_value, hand_over, call, Use, uses_by,
}

-- What the coroutine comes to: a value or no value (void), a std::exception with its text, or
-- something else that is thrown.
pub data Try (T : Type 0) : Type 0 where
  has_value : T → Try T
  has_void : Try T
  std_exception : Bytes → Try T
  other_exception : Try T

-- How a coroutine ends that returns a value, or that an exception leaves.
abbrev pub try_of : {T : Type 0} → Result T → Try T
try_of (ok v) = has_value v
try_of (throws what) = std_exception what

-- What the promise is told.
pub data Settlement (T : Type 0) : Type 0 where
  resolves : Option T → Settlement T
  rejects : Bytes → Settlement T

-- js_traits<Lazy<T>>::wrap, if JS_NewObjectClass gives an object or an exception.
abbrev pub wrap_acts : Bool → List Act
wrap_acts false = []
wrap_acts true =
    create holder
    ∷ create promise
    ∷ create resolve
    ∷ create reject
    ∷ dup_value holder
    ∷ hand_over holder
    ∷ dup_value promise
    ∷ hand_over promise
    ∷ free_value holder
    ∷ dup_value resolve
    ∷ dup_value reject
    ∷ free_value resolve
    ∷ free_value reject
    ∷ hand_over promise
    ∷ []

module _ {T : Type 0} where
  abbrev pub settlement : Try T → Settlement T
  settlement (has_value v) = resolves (some v)
  settlement has_void = resolves none
  settlement (std_exception what) = rejects what
  settlement other_exception = rejects (codes "Unknown error")

  -- How the posted task tells the promise.
  abbrev pub settle_acts : Settlement T → List Act
  settle_acts (rejects text) = create error_value ∷ call reject ∷ free_value error_value ∷ []
  settle_acts (resolves none) = call resolve ∷ []
  settle_acts (resolves (some v)) =
      create resolved_value ∷ call resolve ∷ free_value resolved_value ∷ []

  -- The function that the coroutine's end calls, with `weak.lock()`.
  unfoldable pub completed : Context → Bool → Try T → List Use
  completed c locked result =
      if locked
      then post_task c (λ t.
        uses_by t
          (settle_acts (settlement result) ++ (free_value resolve ∷ free_value reject ∷ [])))
      else []

-- All that a Lazy does with the engine: `wrap` by its caller, and the end.
unfoldable pub lazy_uses : {T : Type 0} → Context → Bool → Try T → List Use
unfolding completed
lazy_uses c locked result = uses_by c.caller (wrap_acts true) ++ completed c locked result
