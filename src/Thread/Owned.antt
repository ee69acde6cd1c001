-- ===== src/Thread/Owned.antt =====
-- Who owns the threads that are live.
use breeze_js.Prelude.{
  ℕ, ◌≤◌, ◌<◌, ◌≡◌, ◌≢◌, refl, ap, subst, Bool, true, false, not, ◌&&◌, List, [], ◌∷◌, ◌++◌, none,
  some, ◌==◌, if◌then◌else◌, arith, length, remove_if, count, ltb, ltb→lt, some_injective,
}
use breeze_js.Thread.{
  Thread, blank, System, at, set_at, Outcome, returns, throws, terminates, CreateCodes, create,
  moved_from, move_construct, move_assign, destroy, join, Call, default_construct, creates,
  move_constructs, move_assigns, destroys, joins, call, calls,
}
use breeze_js.Thread.Objects.{
  owns, owners, owners-append, owners-set_at, length-set_at, at-set_at_other, joinable-lt,
  count-remove_if,
}

-- A handle is owned by one joinable object if its thread is live, and by none otherwise.
pub record IsOwned (s : System) : Type 0 where
  pub owned : (h : ℕ) → owners h s.objects ≡ count h s.live
  pub once : (h : ℕ) → count h s.live ≤ 1

-- It holds in every system that a call leaves.
abbrev pub Leaves : Outcome → Type 0
Leaves (returns s) = IsOwned s
Leaves (throws code s) = IsOwned s
Leaves terminates = Unit {0}

-- A test in front of two outcomes.
Leaves-if :
    (b : Bool) (x y : Outcome)
    → (b ≡ true → Leaves x)
    → (b ≡ false → Leaves y)
    → Leaves (if b then x else y)
Leaves-if true x y f g = f refl
Leaves-if false x y f g = g refl

owns-free : (h : ℕ) (t : Thread) → t.joinable ≡ false → owns h t ≡ 0
owns-free h t e = ground arith

move_construct-Leaves :
    (other : ℕ) (s : System)
    → other < length s.objects
    → IsOwned s
    → Leaves (move_construct other s)
unfolding move_construct
move_construct-Leaves other s b k = record {
  owned = λ h.
      let t = at s.objects other in
      omega (
        arith,
        k.owned h,
        owners-append h (set_at s.objects other (moved_from t)) (t ∷ []),
        owners-set_at h s.objects other (moved_from t) b,
      );
  once = k.once;
}

-- Moving from one object to another that is not joinable.
moved-IsOwned :
    (this other : ℕ) (s : System)
    → this ≢ other
    → this < length s.objects
    → other < length s.objects
    → (at s.objects this).joinable ≡ false
    → IsOwned s
    → let t = at s.objects other in
      IsOwned (record s { objects = set_at (set_at s.objects this t) other (moved_from t) })
moved-IsOwned this other s ne b c free k = record {
  owned = λ h.
      let t = at s.objects other in
      omega (
        arith,
        k.owned h,
        owners-set_at h s.objects this t b,
        owners-set_at h (set_at s.objects this t) other (moved_from t)
            (omega (arith, length-set_at s.objects this t)),
        ap (owns h) (at-set_at_other s.objects this other t ne),
        owns-free h (at s.objects this) free,
      );
  once = k.once;
}

move_assign-Leaves :
    (this other : ℕ) (s : System)
    → this < length s.objects
    → other < length s.objects
    → IsOwned s
    → Leaves (move_assign this other s)
unfolding move_assign
move_assign-Leaves this other s b c k =
    Leaves-if (this == other) _ _ (λ _. k)
      (λ ne.
        Leaves-if (at s.objects this).joinable _ _ (λ _. tt)
          (λ free. moved-IsOwned this other s (λ e. ground arith) b c free k))

joined-IsOwned :
    (this : ℕ) (s : System)
    → (at s.objects this).joinable ≡ true
    → IsOwned s
    → IsOwned (record {
      objects = set_at s.objects this blank;
      live = remove_if (λ h. h == (at s.objects this).handle) s.live;
    })
joined-IsOwned this s busy k = record {
  owned = λ h. ground (
    arith,
    k.owned h,
    k.once h,
    count-remove_if h (at s.objects this).handle s.live,
    owners-set_at h s.objects this blank (joinable-lt s.objects this busy),
  );
  once = λ h. ground (arith, k.once h, count-remove_if h (at s.objects this).handle s.live);
}

join-Leaves : (this code : ℕ) (s : System) → IsOwned s → Leaves (join this code s)
unfolding join
join-Leaves this code s k =
    Leaves-if (not (at s.objects this).joinable) _ _ (λ _. k)
      (λ busy.
        Leaves-if (not (code == 0)) _ _ (λ _. k) (λ _. joined-IsOwned this s (ground arith) k))

destroy-Leaves : (this : ℕ) (s : System) → IsOwned s → Leaves (destroy this s)
unfolding destroy
destroy-Leaves this s k = Leaves-if (at s.objects this).joinable _ _ (λ _. tt) (λ _. k)

module _ (pick : List ℕ → ℕ) (fresh : (live : List ℕ) → count (pick live) live ≡ 0) where
  created-IsOwned :
      (s : System)
      → IsOwned s
      → IsOwned (record {
        objects = s.objects ++ record { handle = pick s.live; joinable = true } ∷ [];
        live = pick s.live ∷ s.live;
      })
  created-IsOwned s k = record {
    owned = λ h. omega (
      arith,
      k.owned h,
      owners-append h s.objects (record { handle = pick s.live; joinable = true } ∷ []),
    );
    once = λ h. ground (arith, k.once h, fresh s.live);
  }

  create-Leaves :
      (stack_size : ℕ) (codes : CreateCodes) (s : System)
      → IsOwned s
      → Leaves (create pick stack_size codes s)
  unfolding create
  create-Leaves stack_size codes s k =
      Leaves-if (not (codes.attr_init == 0)) _ _ (λ _. k)
        (λ _.
          Leaves-if (not (stack_size == 0) && not (codes.attr_setstacksize == 0)) _ _ (λ _. k)
            (λ _. Leaves-if (not (codes.create == 0)) _ _ (λ _. k) (λ _. created-IsOwned s k)))

  call-Leaves : (c : Call) (s : System) → IsOwned s → Leaves (call pick c s)
  unfolding call
  call-Leaves default_construct s k = record {
    owned = λ h. omega (arith, k.owned h, owners-append h s.objects (blank ∷ []));
    once = k.once;
  }
  call-Leaves (creates stack_size codes) s k = create-Leaves stack_size codes s k
  call-Leaves (move_constructs other) s k =
      Leaves-if (ltb other (length s.objects)) _ _
        (λ b. move_construct-Leaves other s (ltb→lt other (length s.objects) b) k) (λ _. k)
  call-Leaves (move_assigns this other) s k =
      Leaves-if (ltb this (length s.objects) && ltb other (length s.objects)) _ _
        (λ b. move_assign-Leaves this other s (ground arith) (ground arith) k) (λ _. k)
  call-Leaves (destroys this) s k = destroy-Leaves this s k
  call-Leaves (joins this code) s k = join-Leaves this code s k

  -- If the handle of a new thread is that of no live one, then after any run of calls that does not
  -- end the program, every handle is owned by one joinable object if its thread is live, and by none
  -- otherwise: no thread is joined twice, and none is left without an owner.
  pub calls-IsOwned :
      (cs : List Call) (s s' : System) → IsOwned s → calls pick cs s ≡ some s' → IsOwned s'
  unfolding calls
  calls-IsOwned [] s s' k e = subst IsOwned (some_injective e) k
  calls-IsOwned (c ∷ cs) s s' k e =
      go (λ t l h. calls-IsOwned cs t s' l h) (call pick c s) (call-Leaves c s k) e
    where
      go :
          ((t : System) → IsOwned t → calls pick cs t ≡ some s' → IsOwned s')
          → (o : Outcome) → Leaves o
          → elim o [
            | returns t ↦ calls pick cs t
            | throws code t ↦ calls pick cs t
            | terminates ↦ none
          ]
            ≡ some s'
          → IsOwned s'
      go again (returns t) l h = again t l h
      go again (throws code t) l h = again t l h
      go again terminates l h = cc
