-- ===== src/Jobs.antt =====
-- The jobs of the engine in the task queue: `JS_EnqueueJob` and `JS_IsJobPending`
-- of src/breeze-js/job_queue.cc.
--
-- A value of the engine is a number, and a log keeps each `JS_DupValue` and `JS_FreeValue` of one. A
-- job function is a number too; `job_func` is what it returns for its arguments. The queue gives its
-- tasks in any order. A job that the loop drops at its shutdown is not run and its values stay.
pub mod Balance
mod Tests
use breeze_js.Prelude.{
  ℕ, zero, suc, ◌+◌, Bool, true, false, not, List, [], ◌∷◌, ◌++◌, Option, none, some, if◌then◌else◌,
  map, is_empty,
}

pub record Job : Type 0 where
  pub func : ℕ
  pub args : List ℕ

pub data Event : Type 0 where
  dup_value free_value result_value : ℕ → Event

-- The tasks posted and not yet run, and the log.
pub record Queue : Type 0 where
  pub jobs : List Job
  pub log : List Event

-- JS_GetContextOpaque, and the `script_ctx` behind it: a null pointer at either ends the call.
pub data Opaque : Type 0 where
  no_opaque no_script_context : Opaque
  script_context : Opaque

-- The loop over the arguments.
abbrev pub dup_all : List ℕ → List Event
dup_all = map dup_value

-- JS_EnqueueJob: the result, and the queue. -1 is `none`.
unfoldable pub enqueue_job : Opaque → ℕ → List ℕ → Queue → Option ℕ × Queue
enqueue_job no_opaque func args q = (none, q)
enqueue_job no_script_context func args q = (none, q)
enqueue_job script_context func args q = (
  some 0,
  record { jobs = q.jobs ++ record { func = func; args = args } ∷ []; log = q.log ++ dup_all args },
)

-- JS_IsJobPending: `task_queue_size > 0`.
unfoldable pub is_job_pending : Opaque → Queue → Bool
is_job_pending script_context q = not (is_empty q.jobs)
is_job_pending _ q = false

-- The job at place `i`, and the others.
unfoldable pub take_at : List Job → ℕ → Option (Job × List Job)
take_at [] i = none
take_at (j ∷ js) zero = some (j, js)
take_at (j ∷ js) (suc i) = elim (take_at js i) [
  | none ↦ none
  | some (taken, rest) ↦ some (taken, j ∷ rest)
]

module _ (job_func : ℕ → List ℕ → ℕ) where
  -- The task that JS_EnqueueJob posts.
  abbrev pub run_job : Job → List Event
  run_job j =
      let res = job_func j.func j.args in
      result_value res ∷ (map free_value j.args ++ free_value res ∷ [])

  -- The event loop runs the job at place `i`.
  unfoldable pub run_at : ℕ → Queue → Queue
  unfolding take_at
  run_at i q = elim (take_at q.jobs i) [
    | none ↦ q
    | some (j, rest) ↦ record { jobs = rest; log = q.log ++ run_job j }
  ]

-- What happens to the queue.
pub data Action : Type 0 where
  enqueues : Opaque → ℕ → List ℕ → Action
  runs : ℕ → Action

module _ (job_func : ℕ → List ℕ → ℕ) where
  unfoldable pub act : Action → Queue → Queue
  unfolding enqueue_job run_at
  act (enqueues opaque func args) q = (enqueue_job opaque func args q).1
  act (runs i) q = run_at job_func i q

  unfoldable pub act_all : List Action → Queue → Queue
  unfolding act
  act_all [] q = q
  act_all (a ∷ acts) q = act_all acts (act a q)
