-- ===== src/Timers/Round.antt =====
-- What one round does, whatever the other timers are.
use breeze_js.Prelude.{
  ℕ, ◌≡◌, refl, Bool, false, List, [], ◌∷◌, ◌++◌, none, some, arith, append_assoc, All,
}
use breeze_js.Timers.{Slot, Event, called, reported, visit, keep_slot, round, call_all}

keep_slot-append : (s : Slot) (xs ys : List Slot) → keep_slot s (xs ++ ys) ≡ keep_slot s xs ++ ys
keep_slot-append none xs ys = refl
keep_slot-append (some t) xs ys = refl

-- Timers do not disturb one another: a round over two lists is a round over each.
pub round-append :
    (expired : ℕ → Bool) (xs ys : List Slot)
    → round expired (xs ++ ys)
      ≡ ((round expired xs).0 ++ (round expired ys).0, (round expired xs).1 ++ (round expired ys).1)
unfolding round
round-append expired [] ys = refl
round-append expired (x ∷ xs) ys = rw (round-append expired xs ys) (
    rw (
      keep_slot-append (visit expired x).0 (round expired xs).0 (round expired ys).0,
      append_assoc,
    ))

-- No empty slot is left, and no timer of a context that is gone.
abbrev pub IsAlive : (ℕ → Bool) → Slot → Type 0
IsAlive expired none = ⊥
IsAlive expired (some t) = expired t.ctx ≡ false

visit-IsAlive :
    (expired : ℕ → Bool) (s : Slot) (rest : List Slot)
    → All (IsAlive expired) rest
    → All (IsAlive expired) (keep_slot (visit expired s).0 rest)
unfolding visit
visit-IsAlive expired none rest h = h
visit-IsAlive expired (some t) rest h = ground arith

pub round-IsAlive :
    (expired : ℕ → Bool) (ts : List Slot) → All (IsAlive expired) (round expired ts).0
unfolding round
round-IsAlive expired [] = tt
round-IsAlive expired (s ∷ ss) =
    visit-IsAlive expired s (round expired ss).0 (round-IsAlive expired ss)

-- A callback that throws stops no other one: every callback of the round is called, in order.
abbrev pub calls_of : List Event → List ℕ
calls_of [] = []
calls_of (called c ∷ es) = c ∷ calls_of es
calls_of (reported c ∷ es) = calls_of es

pub call_all-calls : (throwing : ℕ → Bool) (cs : List ℕ) → calls_of (call_all throwing cs) ≡ cs
unfolding call_all
call_all-calls throwing [] = refl
call_all-calls throwing (c ∷ cs) = ground (arith, call_all-calls throwing cs)
