-- ===== src/Bridge/Lazy/Settled.antt =====
-- How the promise of a Lazy is settled.
use breeze_js.Prelude.{◌+◌, ◌≡◌, Bool, true, false, if◌then◌else◌, arith}
use breeze_js.Bridge.{Context, Held, resolve, reject}
use breeze_js.Bridge.Uses.{makes, gives_up, calls, sum_of, IsBalanced}
use breeze_js.Bridge.Lazy.{
  Try, has_value, has_void, std_exception, other_exception, completed, lazy_uses,
}

abbrev pub is_resolve : Held → Bool
is_resolve resolve = true
is_resolve _ = false

abbrev pub is_reject : Held → Bool
is_reject reject = true
is_reject _ = false

abbrev pub is_error : {T : Type 0} → Try T → Bool
is_error (std_exception what) = true
is_error other_exception = true
is_error _ = false

module _ {T : Type 0} (c : Context) where
  -- While the context lives, the promise of a Lazy is resolved once and not rejected if the coroutine
  -- ends with a value or with none, and rejected once and not resolved if it throws; and every
  -- reference to its objects is given up as often as it was made.
  pub lazy-settled :
      (result : Try T)
      → (sum_of (calls is_resolve) (lazy_uses c true result) ≡ (if is_error result then 0 else 1))
        × (sum_of (calls is_reject) (lazy_uses c true result) ≡ (if is_error result then 1 else 0))
        × IsBalanced (lazy_uses c true result)
  unfolding lazy_uses completed
  lazy-settled (has_value v) = ground arith
  lazy-settled has_void = ground arith
  lazy-settled (std_exception what) = ground arith
  lazy-settled other_exception = ground arith

  -- If the context is gone when the coroutine ends, the promise is not settled, and just the two
  -- references to its resolving functions are never given up.
  pub lazy-leaks :
      (result : Try T) (p : Held → Bool)
      → sum_of (makes p) (lazy_uses c false result)
        ≡ sum_of (gives_up p) (lazy_uses c false result)
          + (if p resolve then 1 else 0)
          + (if p reject then 1 else 0)
  unfolding lazy_uses completed
  lazy-leaks result p = ground arith
