-- ===== src/Jobs/Tests.antt =====
-- Two jobs, and the theorem at them.
use breeze_js.Prelude.{ℕ, ◌≡◌, refl, List, [], ◌∷◌, true}
use breeze_js.Jobs.{
  Queue, script_context, no_opaque, enqueues, runs, Action, act, act_all, enqueue_job, run_at,
  take_at, is_job_pending,
}
use breeze_js.Jobs.Balance.{IsBalanced, waiting, act_all-IsBalanced}

abbrev empty : Queue
empty = record { jobs = []; log = [] }

empty-IsBalanced : IsBalanced empty
empty-IsBalanced v = refl

abbrev returns_nine : ℕ → List ℕ → ℕ
returns_nine func args = 9

-- The second of two jobs runs; value 4 is still held for the first.
abbrev script : List Action
script =
    enqueues script_context 1 (4 ∷ 5 ∷ [])
    ∷ enqueues no_opaque 1 (4 ∷ [])
    ∷ enqueues script_context 2 (4 ∷ [])
    ∷ runs 1
    ∷ []

held_runs : waiting 4 (act_all returns_nine script empty).jobs ≡ 1
unfolding act_all act enqueue_job run_at take_at
held_runs = refl

pending_runs : is_job_pending script_context (act_all returns_nine script empty) ≡ true
unfolding act_all act enqueue_job run_at take_at is_job_pending
pending_runs = refl

act_all-IsBalanced_example : IsBalanced (act_all returns_nine script empty)
act_all-IsBalanced_example = act_all-IsBalanced returns_nine script empty empty-IsBalanced
