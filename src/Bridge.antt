-- ===== src/Bridge.antt =====
-- How C++ threads reach the JS engine (src/breeze-js/quickjspp.cc, and what this repository adds to
-- headers/breeze-js/quickjspp.hpp): an operation is modelled by its result and by its uses of the
-- engine, each with the thread that makes it.
--
-- The engine is a parameter: what a call, a conversion or a promise comes to. `wait_with_msgloop` runs
-- its argument, which waits for a task that the loop runs (outside Windows).
pub mod Uses
pub mod Await
pub mod Values
pub mod Call
pub mod Lazy
mod Tests
use breeze_js.Prelude.{map, ℕ, Bool, true, false, List, if◌then◌else◌}

pub data Thread : Type 0 where
  js_thread other_thread : Thread

-- A context, as the calling thread finds it: whether its `script_ctx` is set, and the thread.
pub record Context : Type 0 where
  pub script_ctx : Bool
  pub caller : Thread

abbrev pub is_js_thread : Thread → Bool
is_js_thread js_thread = true
is_js_thread other_thread = false

-- Context::isOnJsThread
abbrev pub is_on_js_thread : Context → Bool
is_on_js_thread c = if c.script_ctx then is_js_thread c.caller else true

-- Context::postTask: what a task, a function of the thread that runs it, comes to. The event loop
-- runs a posted task on the JS thread.
abbrev pub post_task : {A : Type 0} → Context → (Thread → A) → A
post_task c task = if c.script_ctx then task js_thread else task c.caller

-- The objects of the engine that an operation holds a reference to.
pub data Held : Type 0 where
  captured reason result : Held  -- in Value::await
  value : Held  -- of a Value
  arg : ℕ → Held  -- of a call
  called : Held  -- what JS_Call returns
  holder promise resolve reject error_value resolved_value : Held  -- for a Lazy

-- What is done with the engine. The first ones make a reference, the next ones give one up.
pub data Act : Type 0 where
  dup_value : Held → Act
  create : Held → Act  -- JS_NewObjectClass, JS_NewString, js_traits::wrap, and what a call returns
  free_value : Held → Act
  hand_over : Held → Act  -- to a Value, a property or the caller, who own it from then on
  call : Held → Act  -- JS_Call
  convert : Held → Act  -- js_traits::unwrap
  promise_state : Act  -- JS_PromiseState
  to_c_string free_c_string : Act

-- A use of the engine, and whether its context is alive then.
pub record Use : Type 0 where
  pub thread : Thread
  pub alive : Bool
  pub act : Act

-- These acts, by this thread, with a live context.
abbrev pub uses_by : Thread → List Act → List Use
uses_by t acts = map (λ a. record { thread = t; alive = true; act = a }) acts
