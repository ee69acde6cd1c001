-- ===== src/Bridge/Await/Dead.antt =====
-- When `Value::await` uses a context that is gone.
use breeze_js.Prelude.{◌≡◌, Bool, true, false, List, [], ◌∷◌, none, some, if◌then◌else◌}
use breeze_js.Bridge.{Context, post_task, free_value, captured, Use}
use breeze_js.Bridge.Await.{
  PromiseState, pending, Look, Task, first_task, poll_fn, Await, run_tasks,
}

abbrev pub if_pending : {V : Type 0} → PromiseState V → Bool → Bool
if_pending pending b = b
if_pending _ b = false

-- The context is gone when a task looks that has seen the promise pending before.
abbrev pub outlived : {V : Type 0} → Bool → List (Look V) → Bool
outlived polling [] = false
outlived polling (look ∷ looks) =
    if look.expired then polling else if_pending look.promise (outlived true looks)

abbrev polls : Task → Bool
polls first_task = false
polls poll_fn = true

-- The uses of a context that is gone.
abbrev pub dead : List Use → List Use
dead [] = []
dead (u ∷ us) = if u.alive then dead us else u ∷ dead us

-- The free of the captured value in the context that is gone.
abbrev pub late_free : Context → Use
late_free c = record { thread = post_task c (λ t. t); alive = false; act = free_value captured }

-- How a task leaves things that finds the promise in this state.
abbrev Left : {V : Type 0} → PromiseState V → Await V → Type 0
Left pending a = (a.posted ≡ some poll_fn) × (dead a.uses ≡ [])
Left _ a = (a.posted ≡ none) × (dead a.uses ≡ [])

-- How a task leaves things that finds the context gone or not, and the promise in this state.
abbrev Fate : {V : Type 0} → Context → Task → Bool → PromiseState V → Await V → Type 0
Fate c first_task true s a = (a.posted ≡ none) × (dead a.uses ≡ [])
Fate c poll_fn true s a = (a.posted ≡ none) × (dead a.uses ≡ late_free c ∷ [])
Fate c task false s a = Left s a

module _ {V : Type 0} (c : Context) (self : V) where
  -- The uses of a context that is gone, behind all tasks.
  abbrev pub Frees : List (Look V) → Await V → Bool → Type 0
  Frees looks a b = dead (run_tasks c self looks a).uses ≡ (if b then late_free c ∷ [] else [])
