-- ===== src/Bridge/Await.antt =====
-- `Value::await` (headers/breeze-js/quickjspp.hpp), for a context with a script_ctx: the first task,
-- the polls that post themselves again, and the wait.
pub mod Outcome
pub mod References
pub mod Releases
pub mod Dead
use breeze_js.Prelude.{
  Bool, true, false, not, List, [], ◌∷◌, ◌++◌, map, Option, none, some, if◌then◌else◌,
}
use breeze_js.Prelude.Result.{Result, ok, throws}
use breeze_js.Bytes.{Bytes, codes}
use breeze_js.Bridge.{
  Context, post_task, captured, reason, result, Act, dup_value, create, free_value, hand_over,
  promise_state, to_c_string, free_c_string, Use,
}

-- What a task finds of the promise: the text of a rejection is none if JS_ToCString fails.
pub data PromiseState (V : Type 0) : Type 0 where
  rejected : Option Bytes → PromiseState V
  fulfilled : V → PromiseState V
  pending : PromiseState V
  no_promise : PromiseState V

-- What a task finds: whether the context is gone, and the promise if it is not.
pub record Look (V : Type 0) : Type 0 where
  pub expired : Bool
  pub promise : PromiseState V

pub data Task : Type 0 where
  first_task poll_fn : Task

-- The SharedState, the task that is posted, whether `*poll_fn` is set, and the uses of the engine.
pub record Await (V : Type 0) : Type 0 where
  pub done : Bool
  pub result : Option V
  pub error : Option Bytes
  pub posted : Option Task
  pub has_poll_fn : Bool
  pub uses : List Use

abbrev pub context_destroyed : Bytes
context_destroyed = codes "Context destroyed while awaiting promise"

abbrev pub rejection_text : Option Bytes → Bytes
rejection_text (some text) = text
rejection_text none = codes "Unknown rejection"

module _ {V : Type 0} (c : Context) (self : V) where
  -- What a posted task does with the engine.
  abbrev pub used : Bool → List Act → List Use
  used alive acts = map (λ a. record { thread = post_task c (λ t. t); alive = alive; act = a }) acts

  -- What `poll_fn` does with the engine, in each state of the promise.
  abbrev pub poll_acts : PromiseState V → List Act
  poll_acts (rejected text) =
      promise_state
      ∷ create reason
      ∷ to_c_string
      ∷ free_c_string
      ∷ free_value reason
      ∷ free_value captured
      ∷ []
  poll_acts (fulfilled v) =
      promise_state ∷ create result ∷ hand_over result ∷ free_value captured ∷ []
  poll_acts pending = promise_state ∷ []
  poll_acts no_promise =
      promise_state ∷ dup_value result ∷ hand_over result ∷ free_value captured ∷ []

  -- `poll_fn`, behind its test of the context
  unfoldable pub poll_state : PromiseState V → Await V → Await V
  poll_state (rejected text) a = record a {
    error = some (rejection_text text);
    done = true;
    has_poll_fn = false;
    uses = a.uses ++ used true (poll_acts (rejected text));
  }
  poll_state (fulfilled v) a = record a {
    result = some v;
    done = true;
    has_poll_fn = false;
    uses = a.uses ++ used true (poll_acts (fulfilled v));
  }
  poll_state pending a = record a {
    posted = some poll_fn;
    uses = a.uses ++ used true (poll_acts pending);
  }
  poll_state no_promise a = record a {
    result = some self;
    done = true;
    has_poll_fn = false;
    uses = a.uses ++ used true (poll_acts no_promise);
  }

  -- `poll_fn`
  unfoldable pub poll : Look V → Await V → Await V
  unfolding poll_state
  poll look a =
      if look.expired
      then record a {
        error = some context_destroyed;
        done = true;
        has_poll_fn = false;
        uses = a.uses ++ used false (free_value captured ∷ []);
      }
      else poll_state look.promise a

  -- The first posted task.
  unfoldable pub start : Look V → Await V → Await V
  unfolding poll
  start look a =
      if look.expired
      then record a { error = some context_destroyed; done = true }
      else poll look
          (record a { has_poll_fn = true; uses = a.uses ++ used true (dup_value captured ∷ []) })

  -- The loop takes the posted task.
  unfoldable pub resume : Option Task → Look V → Await V → Await V
  unfolding poll start
  resume none look a = a
  resume (some first_task) look a = start look (record a { posted = none })
  resume (some poll_fn) look a = poll look (record a { posted = none })

  abbrev pub run_posted : Look V → Await V → Await V
  unfolding resume
  run_posted look a = resume a.posted look a

  unfoldable pub run_tasks : List (Look V) → Await V → Await V
  unfolding resume
  run_tasks [] a = a
  run_tasks (look ∷ looks) a = run_tasks looks (run_posted look a)

  -- Behind `ctx_ref.postTask`.
  abbrev pub begun : Await V
  begun = record {
    done = false;
    result = none;
    error = none;
    posted = some first_task;
    has_poll_fn = false;
    uses = [];
  }

abbrev pub awaited : {V : Type 0} → Context → V → List (Look V) → Await V
awaited c self looks = run_tasks c self looks (begun c self)

-- Behind `cv.wait`, if it returns.
abbrev pub answer : {V : Type 0} → Option Bytes → Option V → Option (Result V)
answer (some error) r = some (throws error)
answer none (some v) = some (ok v)
answer none none = none

abbrev pub finished : {V : Type 0} → Await V → Option (Result V)
finished a = if a.done then answer a.error a.result else none

-- Value::await of a value that has a context or not, when its tasks have found these looks: none if
-- the caller still waits.
unfoldable pub await : {V : Type 0} → Context → Bool → V → List (Look V) → Option (Result V)
unfolding run_tasks
await c has_ctx self looks =
    if has_ctx
    then finished (awaited c self looks)
    else some (throws (codes "Cannot await on Value with no JSContext"))
