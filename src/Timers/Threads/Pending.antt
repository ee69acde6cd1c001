-- ===== src/Timers/Threads/Pending.antt =====
-- The callbacks that a round has collected, and what JS does meanwhile.
use breeze_js.Prelude.{
  ℕ, ◌≤◌, ◌<◌, ◌≡◌, ◌⊎◌, inl, inr, refl, sym, ap, subst, ◌∙◌, List, [], ◌∷◌, ◌++◌, arith,
  append_assoc, append-nil,
}
use breeze_js.Timers.Threads.{
  TimerPc, sleeps, visits, erases, calls, State, Step, wake_up, visit_next, erase_empty, call_next,
  sleep_again, set_timeout, set_interval, clear_seen, clear_ahead, Reach, here, next,
}

-- Where the thread stands behind the collection of the callbacks, and what is left of them.
abbrev pub IsCalling : TimerPc → List ℕ → Type 0
IsCalling sleeps cs = cs ≡ []
IsCalling visits cs = ⊥
IsCalling erases cs = ⊥
IsCalling calls cs = Unit

-- From `s` on, in its round.
abbrev pub IsFollowed : State → State → Type 0
IsFollowed s t =
    (s.rounds < t.rounds)
    ⊎ ((s.rounds ≡ t.rounds)
        × IsCalling t.pc t.callbacks
        × (t.called ++ t.callbacks ≡ s.called ++ s.callbacks))

visits_not_calling : {pc : TimerPc} (cs : List ℕ) → pc ≡ visits → IsCalling pc cs → ⊥
visits_not_calling cs q c = subst (λ p. IsCalling p cs) q c

pub Step-rounds : {s t : State} → Step s t → s.rounds ≤ t.rounds
Step-rounds (wake_up q) = omega arith
Step-rounds (visit_next expired slot rest q a) = omega arith
Step-rounds (erase_empty q) = omega arith
Step-rounds (call_next c cs q f) = omega arith
Step-rounds (sleep_again q f) = omega arith
Step-rounds (set_timeout callback delay ctx) = omega arith
Step-rounds (set_interval callback delay ctx) = omega arith
Step-rounds (clear_seen id t f) = omega arith
Step-rounds (clear_ahead id f e) = omega arith

module _ (s : State) where
  Step-IsFollowed : (t t' : State) → IsFollowed s t → Step t t' → IsFollowed s t'
  Step-IsFollowed t _ (inl later) st = inl (omega (arith, Step-rounds st))
  Step-IsFollowed t _ (inr (r, c, l)) (wake_up q) = inl (omega arith)
  Step-IsFollowed t _ (inr (r, c, l)) (visit_next expired slot rest q a) =
      absurd (visits_not_calling t.callbacks q c)
  Step-IsFollowed t _ (inr (r, c, l)) (erase_empty q) =
      absurd (subst (λ p. IsCalling p t.callbacks) q c)
  Step-IsFollowed t _ (inr (r, c, l)) (call_next x cs q f) = inr (
    r,
    subst (λ p. IsCalling p cs) (sym q) tt,
    append_assoc t.called (x ∷ []) cs ∙ ap (λ k. t.called ++ k) (sym f) ∙ l,
  )
  Step-IsFollowed t _ (inr (r, c, l)) (sleep_again q f) = inr (r, f, l)
  Step-IsFollowed t _ (inr h) (set_timeout callback delay ctx) = inr h
  Step-IsFollowed t _ (inr h) (set_interval callback delay ctx) = inr h
  Step-IsFollowed t _ (inr h) (clear_seen id x f) = inr h
  Step-IsFollowed t _ (inr h) (clear_ahead id f e) = inr h

  Reach-IsFollowed : {t : State} → s.pc ≡ calls → Reach s t → IsFollowed s t
  Reach-IsFollowed q here = inr (refl, subst (λ p. IsCalling p s.callbacks) (sym q) tt, refl)
  Reach-IsFollowed q (next r st) = Step-IsFollowed _ _ (Reach-IsFollowed q r) st

-- What a round has collected is called, whatever timers JS sets or clears meanwhile: if the thread
-- is behind the collection, and sleeps later in the same round, then it has called the callbacks
-- that were left, in their order, and no others. So to clear a timer does not stop its call then.
pub sleeps-called :
    {s t : State}
    → s.pc ≡ calls
    → Reach s t
    → t.rounds ≡ s.rounds
    → t.pc ≡ sleeps
    → t.called ≡ s.called ++ s.callbacks
sleeps-called {s} {t} q run same asleep = elim (Reach-IsFollowed s q run) [
  | inl later ↦ absurd (omega arith)
  | inr (r, c, l) ↦
      let none_left : t.callbacks ≡ [] = subst (λ p. IsCalling p t.callbacks) asleep c in
      sym (append-nil t.called) ∙ ap (λ k. t.called ++ k) (sym none_left) ∙ l
]
