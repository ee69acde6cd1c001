-- ===== src/Timers/Threads/Once.antt =====
-- How often the callback of a timeout is called.
use breeze_js.Prelude.{
  ℕ, ◌+◌, ◌≤◌, ◌≡◌, ◌≢◌, refl, ap, subst, Bool, true, false, List, [], ◌∷◌, ◌++◌, none, some, arith,
  All, All-append, count, count-append,
}
use breeze_js.Prelude.Int.{ℤ}
use breeze_js.Timers.{Slot, visit, clear_timeout}
use breeze_js.Timers.Threads.Counts.{
  slot_count, timers_with, timers_with-append, compact-count, clear_timeout-count,
}
use breeze_js.Timers.Threads.{
  State, Step, wake_up, visit_next, erase_empty, call_next, sleep_again, set_timeout, set_interval,
  clear_seen, clear_ahead, Reach, here, next, initial, compact, new_slot, begin_at,
}

-- A timer with this callback is a timeout.
abbrev pub IsTimeout : ℕ → Slot → Type 0
IsTimeout c none = Unit
IsTimeout c (some t) = t.callback ≡ c → t.repeat ≡ false

visit-count :
    (expired : ℕ → Bool) (c : ℕ) (s : Slot)
    → IsTimeout c s
    → slot_count c (visit expired s).0 + count c (visit expired s).1 ≤ slot_count c s
unfolding visit
visit-count expired c none h = omega arith
visit-count expired c (some t) h = ground (arith)

visit-IsTimeout :
    (expired : ℕ → Bool) (c : ℕ) (s : Slot) → IsTimeout c s → IsTimeout c (visit expired s).0
unfolding visit
visit-IsTimeout expired c none h = tt
visit-IsTimeout expired c (some t) h = ground (arith)

compact-IsTimeout : (c : ℕ) (ss : List Slot) → All (IsTimeout c) ss → All (IsTimeout c) (compact ss)
compact-IsTimeout c [] h = tt
compact-IsTimeout c (none ∷ ss) h = compact-IsTimeout c ss h.1
compact-IsTimeout c (some t ∷ ss) h = (h.0, compact-IsTimeout c ss h.1)

clear_timeout-All {κ} :
    (P : Slot → Type κ) (id : ℕ) (ss : List Slot) → All P ss → All P (clear_timeout id ss)
unfolding clear_timeout
clear_timeout-All P id [] h = tt
clear_timeout-All P id (s ∷ ss) h = ground (arith, clear_timeout-All P id ss h.1)

-- If `c` is the callback of timeouts only: each time that it was set it has been called at most
-- once, waits to be called, or is the callback of a timer.
abbrev pub IsOnce : ℕ → State → Type 0
IsOnce c s =
    All (IsTimeout c) s.seen
    × All (IsTimeout c) s.ahead
    × (timers_with c s.seen + timers_with c s.ahead + count c s.callbacks + count c s.called
        ≤ count c s.timeouts)

module _ (c : ℕ) (s : State) (h : IsOnce c s) where
  visit_next-IsOnce :
      (expired : ℕ → Bool) (slot : Slot) (rest : List Slot)
      → s.ahead ≡ slot ∷ rest
      → IsOnce c (record s {
        pc = begin_at rest;
        seen = s.seen ++ (visit expired slot).0 ∷ [];
        ahead = rest;
        callbacks = s.callbacks ++ (visit expired slot).1;
      })
  visit_next-IsOnce expired slot rest a =
      let (single, singles) = subst (All (IsTimeout c)) a h.1 in
      let left = visit expired slot in
      (
        All-append (IsTimeout c) s.seen (left.0 ∷ []) h.0
            (visit-IsTimeout expired c slot single, tt),
        singles,
        omega (
          arith,
          h.2,
          ap (timers_with c) a,
          visit-count expired c slot single,
          timers_with-append c s.seen (left.0 ∷ []),
          count-append c s.callbacks left.1,
        ),
      )

  call_next-IsOnce :
      (x : ℕ) (cs : List ℕ)
      → s.callbacks ≡ x ∷ cs
      → IsOnce c (record s { callbacks = cs; called = s.called ++ x ∷ [] })
  call_next-IsOnce x cs f =
      (h.0, h.1, omega (arith, h.2, ap (count c) f, count-append c s.called (x ∷ [])))

  set_timeout-IsOnce :
      (callback : ℕ) (delay : ℤ) (ctx id : ℕ)
      → IsOnce c (record s {
        ahead = s.ahead ++ new_slot false callback delay ctx id ∷ [];
        timeouts = callback ∷ s.timeouts;
      })
  set_timeout-IsOnce callback delay ctx id =
      let slot = new_slot false callback delay ctx id in
      (
        h.0,
        All-append (IsTimeout c) s.ahead (slot ∷ []) h.1 (λ _. refl, tt),
        omega (arith, h.2, timers_with-append c s.ahead (slot ∷ [])),
      )

  set_interval-IsOnce :
      (callback : ℕ) (delay : ℤ) (ctx id : ℕ)
      → callback ≢ c
      → IsOnce c (record s {
        ahead = s.ahead ++ new_slot true callback delay ctx id ∷ [];
        intervals = callback ∷ s.intervals;
      })
  set_interval-IsOnce callback delay ctx id ne =
      let slot = new_slot true callback delay ctx id in
      (
        h.0,
        All-append (IsTimeout c) s.ahead (slot ∷ []) h.1 (λ e. absurd (ne e), tt),
        ground (arith, h.2, timers_with-append c s.ahead (slot ∷ [])),
      )

interval_elsewhere :
    (c callback : ℕ) (xs : List ℕ) → count c (callback ∷ xs) ≡ 0 → (callback ≢ c) × (count c xs ≡ 0)
interval_elsewhere c callback xs z = ground arith

module _ (c : ℕ) where
  Step-IsOnce :
      {s t : State}
      → (count c s.intervals ≡ 0 → IsOnce c s)
      → Step s t
      → count c t.intervals ≡ 0
      → IsOnce c t
  Step-IsOnce {s} h (wake_up q) z = let (a, b, n) = h z in (a, b, omega arith)
  Step-IsOnce {s} h (visit_next expired slot rest q a) z =
      visit_next-IsOnce c s (h z) expired slot rest a
  Step-IsOnce {s} h (erase_empty q) z =
      let (f, b, n) = h z in
      let all = s.seen ++ s.ahead in
      (
        tt,
        compact-IsTimeout c all (All-append (IsTimeout c) s.seen s.ahead f b),
        omega (arith, compact-count c all, timers_with-append c s.seen s.ahead),
      )
  Step-IsOnce {s} h (call_next x cs q f) z = call_next-IsOnce c s (h z) x cs f
  Step-IsOnce {s} h (sleep_again q f) z = h z
  Step-IsOnce {s} h (set_timeout callback delay ctx) z =
      set_timeout-IsOnce c s (h z) callback delay ctx _
  Step-IsOnce {s} h (set_interval callback delay ctx) z =
      let (ne, z') = interval_elsewhere c callback s.intervals z in
      set_interval-IsOnce c s (h z') callback delay ctx _ ne
  Step-IsOnce {s} h (clear_seen id t f) z =
      let (a, b, n) = h z in
      (
        clear_timeout-All (IsTimeout c) id s.seen a,
        b,
        omega (arith, clear_timeout-count id c s.seen),
      )
  Step-IsOnce {s} h (clear_ahead id f e) z =
      let (a, b, n) = h z in
      (
        a,
        clear_timeout-All (IsTimeout c) id s.ahead b,
        omega (arith, clear_timeout-count id c s.ahead),
      )

  Reach-IsOnce : {s : State} → Reach initial s → count c s.intervals ≡ 0 → IsOnce c s
  Reach-IsOnce here z = (tt, tt, omega arith)
  Reach-IsOnce (next r st) z = Step-IsOnce (Reach-IsOnce r) st z

  -- In every run of the two threads, a callback that is given to setTimeout only is called at most as
  -- often as it is given to it, whenever timers are set and cleared.
  pub called_once :
      {s : State}
      → Reach initial s
      → count c s.intervals ≡ 0
      → count c s.called ≤ count c s.timeouts
  called_once r z = omega (arith, (Reach-IsOnce r z).2)
