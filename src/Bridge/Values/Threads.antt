-- ===== src/Bridge/Values/Threads.antt =====
-- Which thread frees and converts a value.
use breeze_js.Prelude.{◌≡◌, refl, Bool, true, false, [], if◌then◌else◌}
use breeze_js.Prelude.Result.{Result, ok, throws}
use breeze_js.Bridge.{Thread, js_thread, other_thread, Context}
use breeze_js.Bridge.Values.{Value, free_by, value_destructor, convert_by, value_as}

destructor-on_js :
    (ctx : Bool) (x : Value) (t : Thread)
    → x.ctx_holder ≡ true
    → x.ctx ≡ ctx
    → value_destructor (record { script_ctx = true; caller = t }) false x
      ≡ (if ctx then free_by js_thread else [])
unfolding value_destructor
destructor-on_js true x js_thread h e = rw (h, e) refl
destructor-on_js true x other_thread h e = rw (h, e) refl
destructor-on_js false x t h e = rw (e) refl

as-on_js :
    {R : Type 0} (x : Value) (r : Result R) (t : Thread)
    → x.ctx_holder ≡ true
    → value_as (record { script_ctx = true; caller = t }) false x r ≡ (r, convert_by true js_thread)
unfolding value_as
as-on_js x (ok v) js_thread h = rw (h) refl
as-on_js x (throws e) js_thread h = rw (h) refl
as-on_js x (ok v) other_thread h = rw (h) refl
as-on_js x (throws e) other_thread h = rw (h) refl

-- In a living context with a script_ctx, a value that has its weak pointer is freed by the JS thread,
-- once, if it has a context, and converted by the JS thread, with the same result or exception,
-- whatever thread destroys or converts it.
pub value-on_js :
    {R : Type 0} (c : Context) (x : Value) (r : Result R)
    → c.script_ctx ≡ true
    → x.ctx_holder ≡ true
    → (value_destructor c false x ≡ (if x.ctx then free_by js_thread else []))
      × (value_as c false x r ≡ (r, convert_by true js_thread))
value-on_js c x r threaded h =
    rw (threaded) (destructor-on_js x.ctx x c.caller h refl, as-on_js x r c.caller h)
