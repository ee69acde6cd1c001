-- ===== src/Timers/Ids.antt =====
-- The numbers that setTimeout and setInterval give out: one more than the timers that there are.
use breeze_js.Prelude.{
  ℕ, suc, ◌+◌, ◌≤◌, ◌≡◌, ◌≢◌, refl, ◌∙◌, Bool, true, false, List, [], ◌∷◌, ◌++◌, Option, none, some,
  arith, length, length-append, All, All-append,
}
use breeze_js.Prelude.Int.{ℤ}
use breeze_js.Timers.{Timer, Slot, has_id, set_timer, clear_timeout}

-- The timer that clearTimeout finds.
abbrev pub or_else : Slot → Bool → Slot → Slot
or_else s true rest = s
or_else s false rest = rest

unfoldable pub find_id : ℕ → List Slot → Option Timer
find_id id [] = none
find_id id (s ∷ ss) = or_else s (has_id id s) (find_id id ss)

-- No id is above `n`.
abbrev pub IdWithin : ℕ → Slot → Type 0
IdWithin n none = Unit
IdWithin n (some t) = t.id ≤ n

IdWithin-mono : (n : ℕ) (ts : List Slot) → All (IdWithin n) ts → All (IdWithin (suc n)) ts
IdWithin-mono n [] h = tt
IdWithin-mono n (none ∷ ss) h = (tt, IdWithin-mono n ss h.1)
IdWithin-mono n (some t ∷ ss) h = (omega arith, IdWithin-mono n ss h.1)

find_id_above : (n : ℕ) (ts : List Slot) → All (IdWithin n) ts → find_id (suc n) ts ≡ none
unfolding find_id
find_id_above n [] h = refl
find_id_above n (none ∷ ss) h = find_id_above n ss h.1
find_id_above n (some t ∷ ss) h = ground (arith, find_id_above n ss h.1)

length-snoc : (ts : List Slot) (s : Slot) → length (ts ++ s ∷ []) ≡ suc (length ts)
length-snoc ts s = omega (arith, length-append ts (s ∷ []))

-- As long as no id is above the number of timers, which holds until a timer goes, the id of a new
-- timer is that of no timer, and no id is above the number of timers afterwards.
pub set_timer-fresh :
    (repeat : Bool) (callback : ℕ) (delay : ℤ) (ctx : ℕ) (ts : List Slot)
    → All (IdWithin (length ts)) ts
    → let (id, ts') = set_timer repeat callback delay ctx ts in
      (find_id id ts ≡ none) × All (IdWithin (length ts')) ts'
unfolding set_timer
set_timer-fresh repeat callback delay ctx ts h =
    let e : length ts + 1 ≡ suc (length ts) = omega arith in
    (
      rw e (find_id_above (length ts) ts h),
      rw (length-snoc ts _) (
          All-append (IdWithin (suc (length ts))) ts _ (IdWithin-mono (length ts) ts h)
            (omega arith, tt)),
    )

length-clear_timeout :
    (id : ℕ) (ts : List Slot) (t : Timer)
    → find_id id ts ≡ some t
    → length (clear_timeout id ts) + 1 ≡ length ts
unfolding find_id clear_timeout
length-clear_timeout id [] t e = cc
length-clear_timeout id (none ∷ ss) t e = ground (arith, length-clear_timeout id ss t)
length-clear_timeout id (some x ∷ ss) t e = ground (arith, length-clear_timeout id ss t)

-- clearTimeout takes a timer of that id away, the first one, and no timer of another id.
pub find_id-clear_timeout :
    (id other : ℕ) (ts : List Slot)
    → other ≢ id
    → find_id other (clear_timeout id ts) ≡ find_id other ts
unfolding find_id clear_timeout
find_id-clear_timeout id other [] ne = refl
find_id-clear_timeout id other (none ∷ ss) ne = ground (arith, find_id-clear_timeout id other ss ne)
find_id-clear_timeout id other (some x ∷ ss) ne =
    ground (arith, find_id-clear_timeout id other ss ne)

pub find_id-append :
    (id : ℕ) (xs ys : List Slot) (t : Timer)
    → find_id id xs ≡ some t
    → find_id id (xs ++ ys) ≡ some t
unfolding find_id
find_id-append id [] ys t e = cc
find_id-append id (none ∷ xs) ys t e = find_id-append id xs ys t e
find_id-append id (some x ∷ xs) ys t e = ground (arith, find_id-append id xs ys t)

-- The ids are used again: if the timer whose id is the number of timers runs, and a timer of
-- another id is cleared, then the next timer that is set gets the id of the one that still runs,
-- and a search for this id finds that one.
pub set_timer-clear_timeout_reuse :
    (repeat : Bool) (callback : ℕ) (delay : ℤ) (ctx id : ℕ) (ts : List Slot) (cleared t : Timer)
    → find_id id ts ≡ some cleared
    → find_id (length ts) ts ≡ some t
    → length ts ≢ id
    → let (id', ts') = set_timer repeat callback delay ctx (clear_timeout id ts) in
      (id' ≡ length ts) × (find_id id' ts' ≡ some t)
unfolding set_timer
set_timer-clear_timeout_reuse repeat callback delay ctx id ts cleared t gone runs ne =
    let n = length-clear_timeout id ts cleared gone in
    (
      n,
      rw n (
          find_id-append (length ts) (clear_timeout id ts) _ t
            (find_id-clear_timeout id (length ts) ts ne ∙ runs)),
    )
