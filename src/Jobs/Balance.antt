-- ===== src/Jobs/Balance.antt =====
-- The references that a job takes and gives back.
use breeze_js.Prelude.{
  ℕ, zero, suc, ◌+◌, ◌≡◌, refl, sym, ap, ◌∙◌, inl, inr, List, [], ◌∷◌, ◌++◌, none, some, arith, map,
  count, ◌==◌, if◌then◌else◌, Option-cases, some_injective,
}
use breeze_js.Jobs.{
  Job, Event, dup_value, free_value, result_value, Queue, Opaque, no_opaque, no_script_context,
  script_context, dup_all, enqueue_job, take_at, run_job, run_at, Action, enqueues, runs, act_all,
}

-- The references to `v` that the log takes, and those that it gives back.
abbrev pub taken : ℕ → List Event → ℕ
taken v [] = 0
taken v (dup_value x ∷ es) = (if x == v then 1 else 0) + taken v es
taken v (result_value x ∷ es) = (if x == v then 1 else 0) + taken v es
taken v (free_value x ∷ es) = taken v es

abbrev pub given : ℕ → List Event → ℕ
given v [] = 0
given v (free_value x ∷ es) = (if x == v then 1 else 0) + given v es
given v (dup_value x ∷ es) = given v es
given v (result_value x ∷ es) = given v es

-- How often `v` is an argument of a job that waits.
abbrev pub waiting : ℕ → List Job → ℕ
waiting v [] = 0
waiting v (j ∷ js) = count v j.args + waiting v js

taken-append : (v : ℕ) (xs ys : List Event) → taken v (xs ++ ys) ≡ taken v xs + taken v ys
taken-append v [] ys = omega arith
taken-append v (dup_value x ∷ xs) ys = omega (arith, taken-append v xs ys)
taken-append v (result_value x ∷ xs) ys = omega (arith, taken-append v xs ys)
taken-append v (free_value x ∷ xs) ys = omega (arith, taken-append v xs ys)

given-append : (v : ℕ) (xs ys : List Event) → given v (xs ++ ys) ≡ given v xs + given v ys
given-append v [] ys = omega arith
given-append v (dup_value x ∷ xs) ys = omega (arith, given-append v xs ys)
given-append v (result_value x ∷ xs) ys = omega (arith, given-append v xs ys)
given-append v (free_value x ∷ xs) ys = omega (arith, given-append v xs ys)

waiting-append : (v : ℕ) (xs ys : List Job) → waiting v (xs ++ ys) ≡ waiting v xs + waiting v ys
waiting-append v [] ys = omega arith
waiting-append v (x ∷ xs) ys = omega (arith, waiting-append v xs ys)

-- The log and the jobs, by their parts.
ruleset log_sums = (arith, taken-append, given-append, waiting-append)

dup_all_lem :
    (v : ℕ) (xs : List ℕ) → (taken v (dup_all xs) ≡ count v xs) × (given v (dup_all xs) ≡ 0)
dup_all_lem v [] = (refl, refl)
dup_all_lem v (x ∷ xs) = let (t, g) = dup_all_lem v xs in (omega arith, g)

frees_lem :
    (v : ℕ) (xs : List ℕ)
    → (taken v (map free_value xs) ≡ 0) × (given v (map free_value xs) ≡ count v xs)
frees_lem v [] = (refl, refl)
frees_lem v (x ∷ xs) = let (t, g) = frees_lem v xs in (t, omega arith)

take_at-behind :
    (x : Job) (js : List Job) (i : ℕ) (j : Job) (rest : List Job)
    → take_at js i ≡ some (j, rest)
    → take_at (x ∷ js) (suc i) ≡ some (j, x ∷ rest)
unfolding take_at
take_at-behind x js i j rest e = rw e refl

take_at-behind_none :
    (x : Job) (js : List Job) (i : ℕ) → take_at js i ≡ none → take_at (x ∷ js) (suc i) ≡ none
unfolding take_at
take_at-behind_none x js i e = rw e refl

waiting-take_at :
    (v : ℕ) (js : List Job) (i : ℕ) (j : Job) (rest : List Job)
    → take_at js i ≡ some (j, rest)
    → waiting v js ≡ count v j.args + waiting v rest
unfolding take_at
waiting-take_at v [] i j rest e = cc
waiting-take_at v (x ∷ js) zero j rest e =
    ap (λ p. count v (p.0).args + waiting v p.1) (some_injective e)
waiting-take_at v (x ∷ js) (suc i) j rest e = elim (Option-cases (take_at js i)) [
  | inl miss ↦ cc (sym (take_at-behind_none x js i miss) ∙ e)
  | inr (hit, found) ↦
      let whole = sym (take_at-behind x js i hit.0 hit.1 found) ∙ e in
      omega (
        arith,
        waiting-take_at v js i hit.0 hit.1 found,
        ap (λ p. count v (p.0).args + waiting v p.1) (some_injective whole),
      )
]

-- What was taken is what was given back and what the waiting jobs hold.
abbrev pub IsBalanced : Queue → Type 0
IsBalanced q = (v : ℕ) → taken v q.log ≡ given v q.log + waiting v q.jobs

enqueue_job-IsBalanced :
    (opaque : Opaque) (func : ℕ) (args : List ℕ) (q : Queue)
    → IsBalanced q
    → IsBalanced (enqueue_job opaque func args q).1
unfolding enqueue_job
enqueue_job-IsBalanced no_opaque func args q h = h
enqueue_job-IsBalanced no_script_context func args q h = h
enqueue_job-IsBalanced script_context func args q h = λ v. grind (log_sums, h v, dup_all_lem v args)

module _ (job_func : ℕ → List ℕ → ℕ) where
  run_job_lem :
      (v : ℕ) (j : Job)
      → given v (run_job job_func j) ≡ taken v (run_job job_func j) + count v j.args
  run_job_lem v j = grind (log_sums, frees_lem v j.args)

  run_at-IsBalanced : (i : ℕ) (q : Queue) → IsBalanced q → IsBalanced (run_at job_func i q)
  unfolding run_at
  run_at-IsBalanced i q h = elim (Option-cases (take_at q.jobs i)) [
    | inl miss ↦ rw (run_at, miss) h
    | inr (hit, found) ↦
        let (j, rest) = hit in
        rw (run_at, found)
          (λ v. grind (log_sums, h v, run_job_lem v j, waiting-take_at v q.jobs i j rest found))
  ]

  -- After any run of enqueued and executed jobs from a balanced queue, the references that were taken
  -- by the glue code or returned by job functions are those given back and those that the waiting
  -- jobs hold as their arguments.
  pub act_all-IsBalanced :
      (acts : List Action) (q : Queue) → IsBalanced q → IsBalanced (act_all job_func acts q)
  unfolding act_all
  act_all-IsBalanced [] q h = h
  act_all-IsBalanced (enqueues opaque func args ∷ acts) q h =
      act_all-IsBalanced acts _ (enqueue_job-IsBalanced opaque func args q h)
  act_all-IsBalanced (runs i ∷ acts) q h = act_all-IsBalanced acts _ (run_at-IsBalanced i q h)
