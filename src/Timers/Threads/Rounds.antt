-- ===== src/Timers/Threads/Rounds.antt =====
-- A round of the timer thread during which JS makes no call.
use breeze_js.Prelude.{
  ℕ, suc, ◌<◌, ◌≡◌, refl, sym, ap, subst, ◌∙◌, ◌⊎◌, inl, inr, Bool, List, [], ◌∷◌, ◌++◌, none, some,
  arith, append_assoc, append-nil,
}
use breeze_js.Timers.{Slot, visit, keep_slot, round}
use breeze_js.Timers.Threads.{
  TimerPc, sleeps, visits, erases, calls, State, Step, wake_up, visit_next, erase_empty, call_next,
  sleep_again, set_timeout, set_interval, clear_seen, clear_ahead, compact, begin_at,
}
use breeze_js.Timers.Threads.Pending.{Step-rounds}

-- A step of the timer thread, with these contexts gone.
abbrev pub IsOwn : {s t : State} → (ℕ → Bool) → Step s t → Type 0
IsOwn expired (wake_up q) = Unit
IsOwn expired (visit_next e slot rest q a) = e ≡ expired
IsOwn expired (erase_empty q) = Unit
IsOwn expired (call_next c cs q f) = Unit
IsOwn expired (sleep_again q f) = Unit
IsOwn expired (set_timeout callback delay ctx) = ⊥
IsOwn expired (set_interval callback delay ctx) = ⊥
IsOwn expired (clear_seen id t f) = ⊥
IsOwn expired (clear_ahead id f e) = ⊥

-- A run of the timer thread alone.
pub data Alone (expired : ℕ → Bool) (s : State) : State → Type 0 where
  here : Alone expired s s
  next : {t t' : State} (st : Step t t') → Alone expired s t → IsOwn expired st → Alone expired s t'

compact-snoc :
    (xs : List Slot) (s : Slot) (rest : List Slot)
    → compact (xs ++ s ∷ []) ++ rest ≡ compact xs ++ keep_slot s rest
compact-snoc [] none rest = refl
compact-snoc [] (some t) rest = refl
compact-snoc (none ∷ xs) s rest = compact-snoc xs s rest
compact-snoc (some x ∷ xs) s rest = ap (λ k. some x ∷ k) (compact-snoc xs s rest)

module _ (expired : ℕ → Bool) (s : State) where
  -- In the round that begins at `s`, what the thread has done and what is ahead of it make up `round`.
  abbrev InRound : TimerPc → State → Type 0
  InRound sleeps t =
      (t.ahead ≡ (round expired s.ahead).0) × (t.called ≡ s.called ++ (round expired s.ahead).1)
  InRound calls t =
      (t.ahead ≡ (round expired s.ahead).0)
      × (t.called ++ t.callbacks ≡ s.called ++ (round expired s.ahead).1)
  InRound visits t =
      (compact t.seen ++ (round expired t.ahead).0 ≡ (round expired s.ahead).0)
      × (t.callbacks ++ (round expired t.ahead).1 ≡ (round expired s.ahead).1)
      × (t.called ≡ s.called)
  InRound erases t =
      (t.ahead ≡ [])
      × (compact t.seen ≡ (round expired s.ahead).0)
      × (t.callbacks ≡ (round expired s.ahead).1)
      × (t.called ≡ s.called)

  abbrev IsBefore : State → Type 0
  IsBefore t =
      (t.rounds ≡ s.rounds)
      × (t.pc ≡ sleeps)
      × (t.seen ≡ [])
      × (t.ahead ≡ s.ahead)
      × (t.called ≡ s.called)

  abbrev Follows : State → Type 0
  Follows t =
      IsBefore t ⊎ (((t.rounds ≡ suc s.rounds) × InRound t.pc t) ⊎ (suc s.rounds < t.rounds))

  module _ (t : State) where
    at_pc : {pc : TimerPc} → t.pc ≡ pc → InRound t.pc t → InRound pc t
    at_pc q p = subst (λ pc. InRound pc t) q p

    visit_next-InRound :
        (slot : Slot) (rest : List Slot)
        → t.ahead ≡ slot ∷ rest
        → InRound visits t
        → InRound visits (record t {
          pc = begin_at rest;
          seen = t.seen ++ (visit expired slot).0 ∷ [];
          ahead = rest;
          callbacks = t.callbacks ++ (visit expired slot).1;
        })
    unfolding round
    visit_next-InRound slot rest a (kept, due, same) =
        let (left, fired) = visit expired slot in
        (
          compact-snoc t.seen left (round expired rest).0
              ∙ subst (λ l. compact t.seen ++ (round expired l).0 ≡ (round expired s.ahead).0) a
                  kept,
          append_assoc t.callbacks fired (round expired rest).1
              ∙ subst (λ l. t.callbacks ++ (round expired l).1 ≡ (round expired s.ahead).1) a due,
          same,
        )

    -- At the test of the loop.
    begin_at-InRound : (l : List Slot) → t.ahead ≡ l → InRound visits t → InRound (begin_at l) t
    unfolding round
    begin_at-InRound (x ∷ l) a p = p
    begin_at-InRound [] a (kept, due, same) = (
      a,
      sym (append-nil (compact t.seen))
          ∙ subst (λ l. compact t.seen ++ (round expired l).0 ≡ (round expired s.ahead).0) a kept,
      sym (append-nil t.callbacks)
          ∙ subst (λ l. t.callbacks ++ (round expired l).1 ≡ (round expired s.ahead).1) a due,
      same,
    )

    erase_empty-InRound :
        InRound erases t
        → InRound calls (record t { pc = calls; seen = []; ahead = compact (t.seen ++ t.ahead) })
    erase_empty-InRound (a, kept, due, same) = (
      ap (λ l. compact (t.seen ++ l)) a ∙ ap compact (append-nil t.seen) ∙ kept,
      ap (λ k. k ++ t.callbacks) same ∙ ap (λ k. s.called ++ k) due,
    )

    call_next-InRound :
        (c : ℕ) (cs : List ℕ)
        → t.callbacks ≡ c ∷ cs
        → InRound calls t
        → InRound calls (record t { callbacks = cs; called = t.called ++ c ∷ [] })
    call_next-InRound c cs f (kept, due) =
        (kept, append_assoc t.called (c ∷ []) cs ∙ ap (λ k. t.called ++ k) (sym f) ∙ due)

    sleep_again-InRound :
        t.callbacks ≡ [] → InRound calls t → InRound sleeps (record t { pc = sleeps })
    sleep_again-InRound f (kept, due) =
        (kept, sym (append-nil t.called) ∙ ap (λ k. t.called ++ k) (sym f) ∙ due)

    -- Back to the place of the thread.
    back : {pc : TimerPc} (t' : State) → t'.pc ≡ pc → InRound pc t' → InRound t'.pc t'
    back t' q p = subst (λ pc. InRound pc t') (sym q) p

  Step-Follows : (t t' : State) (st : Step t t') → IsOwn expired st → Follows t → Follows t'
  Step-Follows t _ st own (inr (inr later)) = inr (inr (omega (arith, Step-rounds st)))
  Step-Follows t _ (wake_up q) own (inl (r, q', seen, ahead, same)) = inr (
      inl (
        ap suc r,
        begin_at-InRound (record t { pc = begin_at t.ahead; callbacks = []; rounds = suc t.rounds })
            t.ahead refl (rw (seen, ahead) refl, ap (λ l. (round expired l).1) ahead, same),
      ))
  Step-Follows t _ (wake_up q) own (inr (inl (r, p))) = inr (inr (omega arith))
  Step-Follows t _ (visit_next e slot rest q a) own (inl before) = cc (sym q ∙ before.1)
  Step-Follows t _ (visit_next e slot rest q a) own (inr (inl (r, p))) = inr (
      inl (
        r,
        subst
            (λ f. InRound (begin_at rest) (record t {
              pc = begin_at rest;
              seen = t.seen ++ (visit f slot).0 ∷ [];
              ahead = rest;
              callbacks = t.callbacks ++ (visit f slot).1;
            }))
            (sym own)
            (begin_at-InRound _ rest refl (visit_next-InRound t slot rest a (at_pc t q p))),
      ))
  Step-Follows t _ (erase_empty q) own (inl before) = cc (sym q ∙ before.1)
  Step-Follows t _ (erase_empty q) own (inr (inl (r, p))) =
      inr (inl (r, erase_empty-InRound t (at_pc t q p)))
  Step-Follows t _ (call_next c cs q f) own (inl before) = cc (sym q ∙ before.1)
  Step-Follows t _ (call_next c cs q f) own (inr (inl (r, p))) =
      inr (inl (r, back t _ q (call_next-InRound t c cs f (at_pc t q p))))
  Step-Follows t _ (sleep_again q f) own (inl before) = cc (sym q ∙ before.1)
  Step-Follows t _ (sleep_again q f) own (inr (inl (r, p))) =
      inr (inl (r, sleep_again-InRound t f (at_pc t q p)))
  Step-Follows t _ (set_timeout callback delay ctx) own h = absurd own
  Step-Follows t _ (set_interval callback delay ctx) own h = absurd own
  Step-Follows t _ (clear_seen id x f) own h = absurd own
  Step-Follows t _ (clear_ahead id f e) own h = absurd own

  Alone-Follows : {t : State} → s.pc ≡ sleeps → s.seen ≡ [] → Alone expired s t → Follows t
  Alone-Follows q seen here = inl (refl, q, seen, refl, refl)
  Alone-Follows q seen (next st r own) = Step-Follows _ _ st own (Alone-Follows q seen r)

  -- A round in which JS makes no call is the round of Timers: if the timer thread runs alone from
  -- where it sleeps until it sleeps after one round, then the timers that are left are those of
  -- `round`, and it has called the callbacks of `round`, in their order.
  pub sleeps-round :
      {t : State}
      → s.pc ≡ sleeps
      → s.seen ≡ []
      → Alone expired s t
      → t.rounds ≡ suc s.rounds
      → t.pc ≡ sleeps
      → (t.ahead ≡ (round expired s.ahead).0) × (t.called ≡ s.called ++ (round expired s.ahead).1)
  sleeps-round {t} q seen run once asleep = elim (Alone-Follows q seen run) [
    | inl before ↦ absurd (omega (arith, before.0))
    | inr (inl (r, p)) ↦ at_pc t asleep p
    | inr (inr later) ↦ absurd (omega arith)
  ]
