-- ===== src/Bridge/Uses.antt =====
-- What is counted in the uses of the engine.
use breeze_js.Prelude.{ℕ, ◌+◌, ◌≡◌, refl, Bool, true, List, [], ◌∷◌, ◌++◌, if◌then◌else◌, arith}
use breeze_js.Bridge.{
  Thread, js_thread, Held, Act, dup_value, create, free_value, hand_over, call, Use, Thread,
  uses_by,
}

abbrev pub makes : (Held → Bool) → Act → ℕ
makes p (dup_value h) = if p h then 1 else 0
makes p (create h) = if p h then 1 else 0
makes p _ = 0

abbrev pub gives_up : (Held → Bool) → Act → ℕ
gives_up p (free_value h) = if p h then 1 else 0
gives_up p (hand_over h) = if p h then 1 else 0
gives_up p _ = 0

abbrev pub calls : (Held → Bool) → Act → ℕ
calls p (call h) = if p h then 1 else 0
calls p _ = 0

abbrev pub sum_of : (Act → ℕ) → List Use → ℕ
sum_of f [] = 0
sum_of f (u ∷ us) = f u.act + sum_of f us

pub sum_of-append :
    (f : Act → ℕ) (us vs : List Use) → sum_of f (us ++ vs) ≡ sum_of f us + sum_of f vs
sum_of-append f [] vs = omega arith
sum_of-append f (u ∷ us) vs = omega (arith, sum_of-append f us vs)

-- The same, of acts alone.
abbrev pub sums : (Act → ℕ) → List Act → ℕ
sums f [] = 0
sums f (a ∷ acts) = f a + sums f acts

pub sum_of-uses_by :
    (f : Act → ℕ) (t : Thread) (acts : List Act) → sum_of f (uses_by t acts) ≡ sums f acts
sum_of-uses_by f t [] = refl
sum_of-uses_by f t (a ∷ acts) = omega (arith, sum_of-uses_by f t acts)

pub sums-append : (f : Act → ℕ) (xs ys : List Act) → sums f (xs ++ ys) ≡ sums f xs + sums f ys
sums-append f [] ys = omega arith
sums-append f (x ∷ xs) ys = omega (arith, sums-append f xs ys)

-- For every kind of object, as many references are given up as are made.
abbrev pub IsBalanced : List Use → Type 0
IsBalanced us = (p : Held → Bool) → sum_of (makes p) us ≡ sum_of (gives_up p) us

-- The use is made by the JS thread.
abbrev pub IsOnJs : Use → Type 0
IsOnJs u = u.thread ≡ js_thread

abbrev pub IsAlive : Use → Type 0
IsAlive u = u.alive ≡ true

-- Sums over uses and acts, by their parts.
pub ruleset use_sums = (arith, sum_of-append, sums-append, sum_of-uses_by)
