-- ===== src/Timers/Threads/Cleared.antt =====
-- What becomes of a timer that is cleared.
use breeze_js.Prelude.{
  ℕ, ◌+◌, ◌≤◌, ◌≡◌, refl, sym, ap, ◌∙◌, inl, inr, true, false, List, [], ◌∷◌, ◌++◌, none, some,
  arith, count, count-append, Option-cases,
}
use breeze_js.Timers.{Timer, Slot, visit, clear_timeout}
use breeze_js.Timers.Ids.{find_id, find_id-append}
use breeze_js.Timers.Threads.{
  State, Step, wake_up, visit_next, erase_empty, call_next, sleep_again, set_timeout, set_interval,
  clear_seen, clear_ahead, Reach, here, next, IsElsewhere, new_slot,
}
use breeze_js.Timers.Threads.Counts.{
  timers_with, timers_with-append, compact-count, clear_timeout-count, clear_timeout-found,
  visit-elsewhere,
}

-- clearTimeout while the iterator is behind `seen`: the first timer of that id is erased.
unfoldable pub cleared : ℕ → State → State
cleared id s = elim (find_id id s.seen) [
  | some t ↦ record s { seen = clear_timeout id s.seen }
  | none ↦ record s { ahead = clear_timeout id s.ahead }
]

-- How often `c` was given to setTimeout or setInterval, and in how many places of the state it
-- waits.
abbrev pub sets : ℕ → State → ℕ
sets c s = count c s.timeouts + count c s.intervals

abbrev pub waits : ℕ → State → ℕ
waits c s = timers_with c s.seen + timers_with c s.ahead + count c s.callbacks

module _ (c : ℕ) where
  Step-sets : {s t : State} → Step s t → sets c s ≤ sets c t
  Step-sets (wake_up q) = omega arith
  Step-sets (visit_next expired slot rest q a) = omega arith
  Step-sets (erase_empty q) = omega arith
  Step-sets (call_next x cs q f) = omega arith
  Step-sets (sleep_again q f) = omega arith
  Step-sets (set_timeout callback delay ctx) = omega arith
  Step-sets (set_interval callback delay ctx) = omega arith
  Step-sets (clear_seen id t f) = omega arith
  Step-sets (clear_ahead id f e) = omega arith

  Reach-sets : {s t : State} → Reach s t → sets c s ≤ sets c t
  Reach-sets here = omega arith
  Reach-sets (next r st) = omega (arith, Reach-sets r, Step-sets st)

  -- A callback that waits nowhere and is not set is not called, and waits nowhere afterwards.
  Step-waits :
      {s t : State}
      → waits c s ≡ 0
      → Step s t
      → sets c t ≡ sets c s
      → (waits c t ≡ 0) × (count c t.called ≡ count c s.called)
  Step-waits {s} h (wake_up q) same = (omega arith, refl)
  Step-waits {s} h (visit_next expired slot rest q a) same =
      let left = visit expired slot in
      let at : timers_with c s.ahead ≡ timers_with c (slot ∷ rest) = ap (timers_with c) a in
      (
        omega (
          arith,
          visit-elsewhere expired c slot (omega arith),
          timers_with-append c s.seen (left.0 ∷ []),
          count-append c s.callbacks left.1,
        ),
        refl,
      )
  Step-waits {s} h (erase_empty q) same =
      let all = s.seen ++ s.ahead in
      (omega (arith, compact-count c all, timers_with-append c s.seen s.ahead), refl)
  Step-waits {s} h (call_next x cs q f) same =
      let at : count c s.callbacks ≡ count c (x ∷ cs) = ap (count c) f in
      (omega arith, omega (arith, count-append c s.called (x ∷ [])))
  Step-waits {s} h (sleep_again q f) same = (h, refl)
  Step-waits {s} h (set_timeout callback delay ctx) same =
      (omega (arith, timers_with-append c s.ahead (new_slot false callback delay ctx _ ∷ [])), refl)
  Step-waits {s} h (set_interval callback delay ctx) same =
      (omega (arith, timers_with-append c s.ahead (new_slot true callback delay ctx _ ∷ [])), refl)
  Step-waits {s} h (clear_seen id t f) same = (omega (arith, clear_timeout-count id c s.seen), refl)
  Step-waits {s} h (clear_ahead id f e) same =
      (omega (arith, clear_timeout-count id c s.ahead), refl)

  Reach-waits :
      {s t : State}
      → waits c s ≡ 0
      → Reach s t
      → sets c t ≡ sets c s
      → (waits c t ≡ 0) × (count c t.called ≡ count c s.called)
  Reach-waits h here same = (h, refl)
  Reach-waits h (next r st) same =
      let (h', before) = Reach-waits h r (omega (arith, Reach-sets r, Step-sets st)) in
      let (h'', after) = Step-waits h' st (omega (arith, Reach-sets r, Step-sets st)) in
      (h'', after ∙ before)

find_id-append_missing :
    (id : ℕ) (xs ys : List Slot) → find_id id xs ≡ none → find_id id (xs ++ ys) ≡ find_id id ys
unfolding find_id
find_id-append_missing id [] ys e = refl
find_id-append_missing id (none ∷ xs) ys e = find_id-append_missing id xs ys e
find_id-append_missing id (some x ∷ xs) ys e = ground (arith, find_id-append_missing id xs ys)

cleared-waits :
    (id : ℕ) (s : State) (t : Timer)
    → find_id id (s.seen ++ s.ahead) ≡ some t
    → waits t.callback (cleared id s) + 1 ≡ waits t.callback s
unfolding cleared
cleared-waits id s t e = elim (Option-cases (find_id id s.seen)) [
  | inl f ↦
      let g = sym (find_id-append_missing id s.seen s.ahead f) ∙ e in
      rw (cleared, f) (omega (arith, clear_timeout-found id s.ahead t g))
  | inr (x, f) ↦
      let same = sym (find_id-append id s.seen s.ahead x f) ∙ e in
      rw (cleared, f) (omega (arith, clear_timeout-found id s.seen t (f ∙ same)))
]

cleared-same :
    (id : ℕ) (s : State) (c : ℕ)
    → (sets c (cleared id s) ≡ sets c s) × (count c (cleared id s).called ≡ count c s.called)
unfolding cleared
cleared-same id s c = elim (Option-cases (find_id id s.seen)) [
  | inl f ↦ rw (cleared, f) (refl, refl)
  | inr (x, f) ↦ rw (cleared, f) (refl, refl)
]

-- It is a step of the threads.
cleared-Step : (id : ℕ) (s : State) → IsElsewhere s.pc id s.ahead → Step s (cleared id s)
unfolding cleared
cleared-Step id s elsewhere = elim (Option-cases (find_id id s.seen)) [
  | inl f ↦ rw (cleared, f) (clear_ahead id f elsewhere)
  | inr (x, f) ↦ rw (cleared, f) (clear_seen id x f)
]

-- A timer that is cleared before a round has collected it is not called: if the loop of the timer
-- thread does not stand at it, and it is all that waits for its callback, then clearTimeout is a
-- step of the threads, and whatever they do from then on, this callback is called no more until it
-- is given to setTimeout or setInterval again.
pub clear_timeout-never_called :
    {t : State} (s : State) (id : ℕ) (timer : Timer)
    → find_id id (s.seen ++ s.ahead) ≡ some timer
    → waits timer.callback s ≡ 1
    → IsElsewhere s.pc id s.ahead
    → Reach (cleared id s) t
    → sets timer.callback t ≡ sets timer.callback s
    → Step s (cleared id s) × (count timer.callback t.called ≡ count timer.callback s.called)
clear_timeout-never_called s id timer found alone elsewhere run same =
    let c = timer.callback in
    let (sets_same, called_same) = cleared-same id s c in
    let gone = cleared-waits id s timer found in
    (
      cleared-Step id s elsewhere,
      (Reach-waits c (omega arith) run (same ∙ sym sets_same)).1 ∙ called_same,
    )
