-- ===== src/Timers/Threads/Counts.antt =====
-- The timers that have a callback.
use breeze_js.Prelude.{
  ℕ, ◌+◌, ◌≤◌, ◌≡◌, ◌==◌, refl, Bool, List, [], ◌∷◌, ◌++◌, none, some, arith, count, if◌then◌else◌,
}
use breeze_js.Timers.{Timer, Slot, visit, clear_timeout}
use breeze_js.Timers.Ids.{find_id}
use breeze_js.Timers.Threads.{compact}

-- How many timers have the callback `c`.
abbrev pub slot_count : ℕ → Slot → ℕ
slot_count c none = 0
slot_count c (some t) = if t.callback == c then 1 else 0

abbrev pub timers_with : ℕ → List Slot → ℕ
timers_with c [] = 0
timers_with c (s ∷ ss) = slot_count c s + timers_with c ss

pub timers_with-append :
    (c : ℕ) (xs ys : List Slot) → timers_with c (xs ++ ys) ≡ timers_with c xs + timers_with c ys
timers_with-append c [] ys = omega arith
timers_with-append c (x ∷ xs) ys = omega (arith, timers_with-append c xs ys)

pub compact-count : (c : ℕ) (ss : List Slot) → timers_with c (compact ss) ≡ timers_with c ss
compact-count c [] = refl
compact-count c (none ∷ ss) = omega (arith, compact-count c ss)
compact-count c (some t ∷ ss) = omega (arith, compact-count c ss)

pub clear_timeout-count :
    (id c : ℕ) (ss : List Slot) → timers_with c (clear_timeout id ss) ≤ timers_with c ss
unfolding clear_timeout
clear_timeout-count id c [] = omega arith
clear_timeout-count id c (s ∷ ss) = ground (arith, clear_timeout-count id c ss)

-- The timer that clearTimeout finds is the one that it takes away.
pub clear_timeout-found :
    (id : ℕ) (ss : List Slot) (t : Timer)
    → find_id id ss ≡ some t
    → timers_with t.callback (clear_timeout id ss) + 1 ≡ timers_with t.callback ss
unfolding find_id clear_timeout
clear_timeout-found id [] t e = cc
clear_timeout-found id (none ∷ ss) t e = ground (arith, clear_timeout-found id ss t)
clear_timeout-found id (some x ∷ ss) t e = ground (arith, clear_timeout-found id ss t)

-- A loop over a timer of another callback collects other callbacks.
pub visit-elsewhere :
    (expired : ℕ → Bool) (c : ℕ) (s : Slot)
    → slot_count c s ≡ 0
    → slot_count c (visit expired s).0 + count c (visit expired s).1 ≡ 0
unfolding visit
visit-elsewhere expired c none h = refl
visit-elsewhere expired c (some t) h = ground arith
