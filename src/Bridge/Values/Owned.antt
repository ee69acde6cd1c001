-- ===== src/Bridge/Values/Owned.antt =====
-- Who owns the references of the program's values.
use breeze_js.Prelude.{
  ℕ, ◌+◌, ◌≡◌, refl, ap, subst, true, false, List, [], ◌∷◌, ◌++◌, ◌==◌, if◌then◌else◌, arith, All,
  count,
}
use breeze_js.Bridge.{Context}
use breeze_js.Bridge.Values.{
  Value, moved_from, released, value_destructor, freed_by, Heap, HeapStep, construct_context,
  construct_js, construct_weak, copy, move, release, destroy,
}

-- A reference is owned by each value that has a context.
abbrev pub owns : ℕ → Value → ℕ
owns a x = if x.ctx then (if x.v == a then 1 else 0) else 0

abbrev pub owned : ℕ → List Value → ℕ
owned a [] = 0
owned a (x ∷ xs) = owns a x + owned a xs

owned-append : (a : ℕ) (xs ys : List Value) → owned a (xs ++ ys) ≡ owned a xs + owned a ys
owned-append a [] ys = omega arith
owned-append a (x ∷ xs) ys = omega (arith, owned-append a xs ys)

-- A value with a context has its holder.
abbrev pub IsRooted : Value → Type 0
IsRooted x = x.ctx ≡ true → x.ctx_holder ≡ true

pub record IsOwned (h : Heap) : Type 0 where
  pub owners : (a : ℕ) → count a h.made ≡ count a h.freed + owned a h.values + count a h.elsewhere
  pub rooted : All IsRooted h.values

-- Every value is built with the weak pointer to its context, and none is copied without one.
abbrev pub IsWeakStep : {c : Context} {h k : Heap} → HeapStep c h k → Type 0
IsWeakStep (construct_context v) = ⊥
IsWeakStep (construct_js v) = ⊥
IsWeakStep (copy before after x e) = x.ctx ≡ true
IsWeakStep _ = Unit {0}

pub data WeakReach (c : Context) (h : Heap) : Heap → Type 0 where
  here : WeakReach c h h
  next : {k l : Heap} → WeakReach c h k → (st : HeapStep c k l) → IsWeakStep st → WeakReach c h l

-- One value among the others: it is rooted, and can be replaced or taken out.
module _ (after : List Value) (x : Value) where
  here-IsRooted : (before : List Value) → All IsRooted (before ++ x ∷ after) → IsRooted x
  here-IsRooted [] h = h.0
  here-IsRooted (b ∷ before) h = here-IsRooted before h.1

  replaced-IsRooted :
      (before : List Value) (y : Value)
      → IsRooted y
      → All IsRooted (before ++ x ∷ after)
      → All IsRooted (before ++ y ∷ after)
  replaced-IsRooted [] y k h = (k, h.1)
  replaced-IsRooted (b ∷ before) y k h = (h.0, replaced-IsRooted before y k h.1)

  taken-IsRooted :
      (before : List Value) → All IsRooted (before ++ x ∷ after) → All IsRooted (before ++ after)
  taken-IsRooted [] h = h.1
  taken-IsRooted (b ∷ before) h = (h.0, taken-IsRooted before h.1)

ruleset owned_sums = (arith, owned-append)

-- The destructor gives up what the value owns.
freed-destructor :
    (a : ℕ) (c : Context) (x : Value) (freed : List ℕ)
    → IsRooted x
    → count a (freed_by (value_destructor c false x) x.v freed) ≡ owns a x + count a freed
unfolding value_destructor
freed-destructor a c x freed r = ground (arith, r)

HeapStep-IsOwned :
    {c : Context} {h k : Heap} (st : HeapStep c h k) → IsWeakStep st → IsOwned h → IsOwned k
HeapStep-IsOwned (construct_context v) w o = absurd w
HeapStep-IsOwned (construct_js v) w o = absurd w
HeapStep-IsOwned (construct_weak v) w o = record {
  owners = λ a. ground (arith, o.owners a);
  rooted = (λ e. refl, o.rooted);
}
HeapStep-IsOwned (copy before after x e) w o = record {
  owners = λ a. ground (arith, o.owners a, w);
  rooted = (here-IsRooted after x before (subst (All IsRooted) e o.rooted), o.rooted);
}
HeapStep-IsOwned (move before after x e) w o =
    let r = subst (All IsRooted) e o.rooted in
    record {
      owners = λ a. grind (owned_sums, o.owners a, ap (owned a) e);
      rooted = (
        here-IsRooted after x before r,
        replaced-IsRooted after x before (moved_from x) (λ y. cc y) r,
      );
    }
HeapStep-IsOwned (release before after x e) w o = record {
  owners = λ a. grind (owned_sums, o.owners a, ap (owned a) e);
  rooted =
      replaced-IsRooted after x before (released x) (λ y. cc y) (subst (All IsRooted) e o.rooted);
}
HeapStep-IsOwned {c} {h} (destroy before after x e) w o =
    let r = subst (All IsRooted) e o.rooted in
    record {
      owners = λ a. grind (
        owned_sums,
        o.owners a,
        ap (owned a) e,
        freed-destructor a c x h.freed (here-IsRooted after x before r),
      );
      rooted = taken-IsRooted after x before r;
    }

WeakReach-IsOwned : {c : Context} {h k : Heap} → WeakReach c h k → IsOwned h → IsOwned k
WeakReach-IsOwned here o = o
WeakReach-IsOwned (next r st w) o = HeapStep-IsOwned st w (WeakReach-IsOwned r o)

abbrev pub no_values : Heap
no_values = record { values = []; made = []; freed = []; elsewhere = [] }

-- As long as the context lives, every value is built with the weak pointer to it, and no value without
-- a context is copied: whatever values are built, copied, moved, released and destroyed, by whatever
-- thread, once none is left every reference that was made is either freed, once, or was released.
pub WeakReach-freed :
    {c : Context} {h : Heap}
    → WeakReach c no_values h
    → h.values ≡ []
    → (a : ℕ) → count a h.made ≡ count a h.freed + count a h.elsewhere
WeakReach-freed r e a =
    let o = WeakReach-IsOwned r (record { owners = λ a. refl; rooted = tt }) in
    omega (arith, o.owners a, ap (owned a) e)
