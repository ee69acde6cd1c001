-- ===== src/Timers/Period.antt =====
-- When a timer fires: rounds counted from the call of setTimeout or setInterval.
use Prim.Native.Nat.{max}
use native.Mathlib.Nat.{add-div_right, add-mod_right, div-eq_of_lt, mod-eq_of_lt}
use breeze_js.Prelude.{
  sizes, ℕ, zero, suc, ◌+◌, ◌*◌, ◌/◌, ◌%◌, ◌^◌, ◌≤◌, ◌<◌, ◌≡◌, refl, ap, ◌∙◌, Bool, true, false,
  not, List, [], ◌∷◌, ◌++◌, some, arith, leb, if◌then◌else◌, count, length, Bool-cases, inl, inr,
}
use breeze_js.Prelude.Int.{ℤ, pos, negsuc, pos_part, ltb_ℤ, to_int_small}
use breeze_js.Timers.{Timer, Slot, is_due, visit, round, set_timer, set_timeout, set_interval}
use breeze_js.Timers.Round.{round-append}

-- Rounds one after another, with the contexts gone that `expired` says.
unfoldable pub rounds : ℕ → (ℕ → Bool) → List Slot → List Slot × List ℕ
rounds zero expired ts = (ts, [])
rounds (suc n) expired ts =
    let (ts', called) = round expired ts in
    let (ts'', more) = rounds n expired ts' in (ts'', called ++ more)

-- The rounds of 30 ms that reach a delay: one at least.
abbrev pub rounds_to : ℤ → ℕ
rounds_to (pos d) = max 1 ((d + 29) / 30)
rounds_to (negsuc d) = 1

-- The delay leaves room for `elapsed` below 2^31.
abbrev pub IsShort : ℤ → Type 0
IsShort d = pos_part d + 30 ≤ 2 ^ 31

due_iff : (d : ℤ) (k : ℕ) → not (ltb_ℤ (pos (k * 30 + 30)) d) ≡ leb (rounds_to d) (k + 1)
due_iff (pos d) k = ground arith
due_iff (negsuc d) k = ground arith

elapsed_small : (d : ℤ) (k : ℕ) → IsShort d → k < rounds_to d → k * 30 + 30 < 2 ^ 31
elapsed_small (pos d) k short h = ground arith
elapsed_small (negsuc d) k short h = omega arith

is_due_lem :
    (t : Timer) (k : ℕ)
    → k * 30 + 30 < 2 ^ 31
    → is_due (record t { elapsed = k * 30 + 30 }) ≡ leb (rounds_to t.delay) (k + 1)
unfolding is_due
is_due_lem t k small = rw (to_int_small (k * 30 + 30) small) (due_iff t.delay k)

abbrev pub replicate : ℕ → ℕ → List ℕ
replicate zero c = []
replicate (suc n) c = c ∷ replicate n c

rounds_to_pos : (d : ℤ) → 1 ≤ rounds_to d
rounds_to_pos (pos d) = omega arith
rounds_to_pos (negsuc d) = omega arith

-- A timer that has waited `k` rounds, of a context that is there.
abbrev pub waiting : Timer → ℕ → Timer
waiting t k = record t { elapsed = k * 30 }

module _ (expired : ℕ → Bool) (t : Timer) (alive : expired t.ctx ≡ false)
    (short : IsShort t.delay) where
  round_wait :
      (k : ℕ)
      → k + 1 < rounds_to t.delay
      → round expired (some (waiting t k) ∷ []) ≡ (some (waiting t (k + 1)) ∷ [], [])
  unfolding round visit
  round_wait k h =
      let small = elapsed_small t.delay k short (omega arith) in
      let same : (k * 30 + 30) % 2 ^ 32 ≡ k * 30 + 30 = omega arith in
      rw (alive, same, is_due_lem t k small) (ground arith)

  round_fire :
      (k : ℕ)
      → k < rounds_to t.delay
      → rounds_to t.delay ≤ k + 1
      → (t.repeat ≡ false → round expired (some (waiting t k) ∷ []) ≡ ([], t.callback ∷ []))
        × (t.repeat ≡ true
            → round expired (some (waiting t k) ∷ []) ≡ (some (waiting t 0) ∷ [], t.callback ∷ []))
  unfolding round visit
  round_fire k below h =
      let small = elapsed_small t.delay k short below in
      let same : (k * 30 + 30) % 2 ^ 32 ≡ k * 30 + 30 = omega arith in
      (
        λ once. rw (alive, same, is_due_lem t k small) (ground arith),
        λ again. rw (alive, same, is_due_lem t k small) (ground arith),
      )

  rounds_nil : (n : ℕ) → rounds n expired [] ≡ ([], [])
  unfolding rounds round
  rounds_nil zero = refl
  rounds_nil (suc n) = rw (rounds_nil n)

  timeout_rounds :
      (n k : ℕ)
      → t.repeat ≡ false
      → k < rounds_to t.delay
      → rounds n expired (some (waiting t k) ∷ []) ≡ (
          if leb (rounds_to t.delay) (k + n)
          then ([], t.callback ∷ [])
          else (some (waiting t (k + n)) ∷ [], []))
  unfolding rounds
  timeout_rounds zero k once h = let e : k + 0 ≡ k = omega arith in ground arith
  timeout_rounds (suc n) k once h =
      let e : k + 1 + n ≡ k + suc n = omega arith in
      elim (Bool-cases (leb (rounds_to t.delay) (k + 1))) [
        | inl due ↦
            let late : leb (rounds_to t.delay) (k + suc n) ≡ true = ground arith in
            rw ((round_fire k h (ground arith)).0 once, rounds_nil n, late) refl
        | inr early ↦
            rw (round_wait k (ground arith), timeout_rounds n (k + 1) once (ground arith), e)
      ]

  interval_rounds :
      (n k : ℕ)
      → t.repeat ≡ true
      → k < rounds_to t.delay
      → rounds n expired (some (waiting t k) ∷ []) ≡ (
        some (waiting t ((k + n) % rounds_to t.delay)) ∷ [],
        replicate ((k + n) / rounds_to t.delay) t.callback,
      )
  unfolding rounds
  interval_rounds zero k again h =
      let e : k + 0 ≡ k = omega arith in rw (e, div-eq_of_lt h, mod-eq_of_lt h) refl
  interval_rounds (suc n) k again h =
      let e : k + 1 + n ≡ k + suc n = omega arith in
      elim (Bool-cases (leb (rounds_to t.delay) (k + 1))) [
        | inl due ↦
            rw
              (
                (round_fire k h (ground arith)).1 again,
                interval_rounds n 0 again (rounds_to_pos t.delay),
              )
              (let e1 : 0 + n ≡ n = omega arith in
                let e2 : k + suc n ≡ n + rounds_to t.delay = ground arith in
                let e3 : (k + suc n) / rounds_to t.delay ≡ suc ((0 + n) / rounds_to t.delay) =
                  rw (e1, e2, add-div_right n (rounds_to_pos t.delay)) (omega arith) in
                let e4 : (k + suc n) % rounds_to t.delay ≡ (0 + n) % rounds_to t.delay =
                  rw (e1, e2, add-mod_right n (rounds_to t.delay)) refl in
                rw (e3, e4) refl)
        | inr early ↦
            rw (round_wait k (ground arith), interval_rounds n (k + 1) again (ground arith), e) refl
      ]

-- From the call on.
timeout_alone :
    (expired : ℕ → Bool) (t : Timer) (alive : expired t.ctx ≡ false) (short : IsShort t.delay)
    (n : ℕ)
    → t.repeat ≡ false
    → let fired = leb (rounds_to t.delay) n in
      rounds n expired (some (waiting t 0) ∷ [])
      ≡ (if fired then [] else some (waiting t n) ∷ [], if fired then t.callback ∷ [] else [])
timeout_alone expired t alive short n once =
    let e : 0 + n ≡ n = omega arith in
    timeout_rounds expired t alive short n 0 once (rounds_to_pos t.delay) ∙ rw e (ground arith)

interval_alone :
    (expired : ℕ → Bool) (t : Timer) (alive : expired t.ctx ≡ false) (short : IsShort t.delay)
    (n : ℕ)
    → t.repeat ≡ true
    → rounds n expired (some (waiting t 0) ∷ []) ≡ (
      some (waiting t (n % rounds_to t.delay)) ∷ [],
      replicate (n / rounds_to t.delay) t.callback,
    )
interval_alone expired t alive short n again =
    let e : 0 + n ≡ n = omega arith in
    interval_rounds expired t alive short n 0 again (rounds_to_pos t.delay) ∙ rw e refl

-- The calls over several rounds are those of the parts of the list.
rounds-append :
    (n : ℕ) (expired : ℕ → Bool) (xs ys : List Slot)
    → ((rounds n expired (xs ++ ys)).0 ≡ (rounds n expired xs).0 ++ (rounds n expired ys).0)
      × ((c : ℕ)
          → count c (rounds n expired (xs ++ ys)).1
            ≡ count c (rounds n expired xs).1 + count c (rounds n expired ys).1)
unfolding rounds
rounds-append zero expired xs ys = (refl, λ c. omega arith)
rounds-append (suc n) expired xs ys =
    let (xs', cx) = round expired xs in
    let (ys', cy) = round expired ys in
    let (kept, counted) = rounds-append n expired xs' ys' in
    rw (round-append expired xs ys) (kept, λ c. grind (sizes, counted c))

-- What setTimeout and setInterval put behind the timers that are there.
abbrev pub fresh : Bool → ℕ → ℤ → ℕ → ℕ → Timer
fresh repeat callback delay ctx id = record {
  callback = callback;
  ctx = ctx;
  delay = delay;
  elapsed = 0;
  repeat = repeat;
  id = id;
}

module _ (expired : ℕ → Bool) (callback : ℕ) (delay : ℤ) (ctx : ℕ) (alive : expired ctx ≡ false)
    (short : IsShort delay) (ts : List Slot) (n : ℕ) where
  -- What one timer adds to the others.
  behind :
      (t : Timer) (left : List Slot) (calls : List ℕ)
      → rounds n expired (some t ∷ []) ≡ (left, calls)
      → let after = rounds n expired (ts ++ some t ∷ []) in
        let others = rounds n expired ts in
        (after.0 ≡ others.0 ++ left)
        × ((c : ℕ) → count c after.1 ≡ count c others.1 + count c calls)
  behind t left calls e =
      let (kept, counted) = rounds-append n expired ts (some t ∷ []) in
      let others = rounds n expired ts in
      (
        kept ∙ ap (λ r. others.0 ++ r.0) e,
        λ c. counted c ∙ ap (λ r. count c others.1 + count c r.1) e,
      )

  -- For a delay of up to 2^31 - 30, over `n` rounds in which its context lives: a timeout calls its
  -- callback once, in the first round at which `delay` is reached, and is gone from then on; an
  -- interval calls it once for every `rounds_to delay` rounds, and stays. The other timers are left as
  -- they would be without it, and every callback is called as often for them.
  pub set_timer-rounds :
      let t = fresh false callback delay ctx (length ts + 1) in
      let u = fresh true callback delay ctx (length ts + 1) in
      let timeout = rounds n expired (set_timeout callback delay ctx ts).1 in
      let interval = rounds n expired (set_interval callback delay ctx ts).1 in
      let others = rounds n expired ts in
      let fired = leb (rounds_to delay) n in
      let times = n / rounds_to delay in
      (timeout.0 ≡ others.0 ++ (if fired then [] else some (waiting t n) ∷ []))
      × ((c : ℕ)
          → count c timeout.1 ≡ count c others.1 + count c (if fired then callback ∷ [] else []))
      × (interval.0 ≡ others.0 ++ some (waiting u (n % rounds_to delay)) ∷ [])
      × ((c : ℕ) → count c interval.1 ≡ count c others.1 + count c (replicate times callback))
  unfolding set_timer
  set_timer-rounds =
      let t = fresh false callback delay ctx (length ts + 1) in
      let u = fresh true callback delay ctx (length ts + 1) in
      let (left, calls) = behind t _ _ (timeout_alone expired t alive short n refl) in
      let (left', calls') = behind u _ _ (interval_alone expired u alive short n refl) in
      (left, calls, left', calls')
