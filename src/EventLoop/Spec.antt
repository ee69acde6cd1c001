-- ===== src/EventLoop/Spec.antt =====
-- What the task queue of `script_context` promises, with no order and no threads: bags of tasks.
use mathlib.Core.Quot
use mathlib.Core.Quot.{Quot, Quot-set}
use native.Mathlib.Nat.{ℕ_set}
use breeze_js.Prelude.{
  ◌+◌, ◌≤◌, ◌==◌, if◌then◌else◌, ap, ℕ, ◌≡◌, refl, List, [], ◌∷◌, ◌++◌, Option, none, some, arith,
  count,
}

-- Two lists hold the same tasks, as often.
abbrev pub SameTasks : List ℕ → List ℕ → Type 0
SameTasks xs ys = (a : ℕ) → count a xs ≡ count a ys

abbrev pub Bag : Type 0
Bag = Quot SameTasks

abbrev pub bag : List ℕ → Bag
bag = Quot.mk

pub SameTasks-cons : (x : ℕ) (xs ys : List ℕ) → SameTasks xs ys → SameTasks (x ∷ xs) (x ∷ ys)
SameTasks-cons x xs ys h a = omega (arith, h a)

unfoldable pub put : ℕ → Bag → Bag
put x = Quot.lift Quot-set (λ xs. bag (x ∷ xs)) (λ xs ys h. Quot.sound (SameTasks-cons x xs ys h))

-- How often a task is in a bag.
unfoldable pub occurrences : ℕ → Bag → ℕ
occurrences a = Quot.lift ℕ_set (count a) (λ xs ys h. h a)

pub occurrences-put :
    (a x : ℕ) (b : Bag) → occurrences a (put x b) ≡ (if x == a then 1 else 0) + occurrences a b
unfolding occurrences put
occurrences-put a x = Quot.ind (λ b. ℕ_set _ _) (λ xs. refl)

-- Tasks wait, have run, or are lost.
pub record Tasks : Type 0 where
  pub waiting : Bag
  pub finished : Bag
  pub lost : Bag

abbrev pub no_tasks : Tasks
no_tasks = record { waiting = bag []; finished = bag []; lost = bag [] }

-- What is to be seen of the queue from outside.
pub data TaskEvent : Type 0 where
  was_posted was_run was_dropped : ℕ → TaskEvent

-- A task is submitted; a waiting task runs, or is lost; or nothing is to be seen.
pub data Change (p q : Tasks) : Option TaskEvent → Type 0 where
  submit :
      (task : ℕ)
      → q.waiting ≡ put task p.waiting
      → q.finished ≡ p.finished
      → q.lost ≡ p.lost
      → Change p q (some (was_posted task))
  finish :
      (task : ℕ)
      → p.waiting ≡ put task q.waiting
      → q.finished ≡ put task p.finished
      → q.lost ≡ p.lost
      → Change p q (some (was_run task))
  lose :
      (task : ℕ)
      → p.waiting ≡ put task q.waiting
      → q.finished ≡ p.finished
      → q.lost ≡ put task p.lost
      → Change p q (some (was_dropped task))
  silent : q.waiting ≡ p.waiting → q.finished ≡ p.finished → q.lost ≡ p.lost → Change p q none

-- The events in front of one more, if there is one.
abbrev pub more_events : List TaskEvent → Option TaskEvent → List TaskEvent
more_events es none = es
more_events es (some e) = es ++ e ∷ []

-- The runs of the specification, by their events.
pub data Changes (p : Tasks) : List TaskEvent → Tasks → Type 0 where
  unchanged : Changes p [] p
  extend :
      {q r : Tasks} {es : List TaskEvent} {e : Option TaskEvent}
      → Changes p es q
      → Change q r e
      → Changes p (more_events es e) r

-- What is lost stays lost.
pub Change-lost :
    (a : ℕ) {p q : Tasks} {e : Option TaskEvent}
    → Change p q e
    → occurrences a p.lost ≤ occurrences a q.lost
Change-lost a (submit task w f l) = omega (arith, ap (occurrences a) l)
Change-lost a (finish task w f l) = omega (arith, ap (occurrences a) l)
Change-lost a {p} (lose task w f l) =
    omega (arith, ap (occurrences a) l, occurrences-put a task p.lost)
Change-lost a (silent w f l) = omega (arith, ap (occurrences a) l)

-- How often a task is posted in these events, and how often it is run or dropped.
abbrev pub posts : ℕ → List TaskEvent → ℕ
posts a [] = 0
posts a (was_posted x ∷ es) = (if x == a then 1 else 0) + posts a es
posts a (was_run x ∷ es) = posts a es
posts a (was_dropped x ∷ es) = posts a es

abbrev pub ends : ℕ → List TaskEvent → ℕ
ends a [] = 0
ends a (was_posted x ∷ es) = ends a es
ends a (was_run x ∷ es) = (if x == a then 1 else 0) + ends a es
ends a (was_dropped x ∷ es) = (if x == a then 1 else 0) + ends a es

tally-append :
    (a : ℕ) (xs ys : List TaskEvent)
    → (posts a (xs ++ ys) ≡ posts a xs + posts a ys) × (ends a (xs ++ ys) ≡ ends a xs + ends a ys)
tally-append a [] ys = omega arith
tally-append a (was_posted x ∷ xs) ys = omega (arith, tally-append a xs ys)
tally-append a (was_run x ∷ xs) ys = omega (arith, tally-append a xs ys)
tally-append a (was_dropped x ∷ xs) ys = omega (arith, tally-append a xs ys)

-- As often as a task was posted, it was run or dropped, or it waits.
abbrev IsTallied : ℕ → List TaskEvent → Tasks → Type 0
IsTallied a es q = posts a es ≡ ends a es + occurrences a q.waiting

Change-IsTallied :
    (a : ℕ) (es : List TaskEvent) {p q : Tasks} {e : Option TaskEvent}
    → Change p q e
    → IsTallied a es p
    → IsTallied a (more_events es e) q
Change-IsTallied a es {p} (submit task w f l) h = omega (
  arith,
  tally-append a es (was_posted task ∷ []),
  ap (occurrences a) w,
  occurrences-put a task p.waiting,
)
Change-IsTallied a es {p} {q} (finish task w f l) h = omega (
  arith,
  tally-append a es (was_run task ∷ []),
  ap (occurrences a) w,
  occurrences-put a task q.waiting,
)
Change-IsTallied a es {p} {q} (lose task w f l) h = omega (
  arith,
  tally-append a es (was_dropped task ∷ []),
  ap (occurrences a) w,
  occurrences-put a task q.waiting,
)
Change-IsTallied a es (silent w f l) h = omega (arith, ap (occurrences a) w)

pub Changes-IsTallied :
    (a : ℕ) {es : List TaskEvent} {q : Tasks}
    → Changes no_tasks es q
    → posts a es ≡ ends a es + occurrences a q.waiting
unfolding occurrences
Changes-IsTallied a unchanged = refl
Changes-IsTallied a (extend {es = es} r c) = Change-IsTallied a es c (Changes-IsTallied a r)
