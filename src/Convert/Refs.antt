-- ===== src/Convert/Refs.antt =====
-- The references that a run of acts holds.
use breeze_js.Prelude.{
  ℕ, zero, suc, ◌≡◌, refl, Bool, true, false, List, [], ◌∷◌, Option, none, some,
}
use breeze_js.Convert.{Ref, Act, takes, frees, hands}

-- One reference less, if it is one of these; none if there is none to give up.
unfoldable pub less : Bool → ℕ → Option ℕ
less false n = some n
less true zero = none
less true (suc n) = some n

unfoldable pub more : Bool → ℕ → ℕ
more false n = n
more true n = suc n

-- If these objects are meant.
unfoldable pub picks : (Ref → Bool) → Ref → Bool
picks p r = p r

-- How many references to the objects that `p` picks are held behind these acts; none if one of them
-- gives up a reference that is not held.
unfoldable pub held : (Ref → Bool) → ℕ → List Act → Option ℕ
unfolding more less picks
held p n [] = some n
held p n (takes r ∷ acts) = held p (more (picks p r) n) acts
held p n (frees r ∷ acts) = elim (less (picks p r) n) [ none ↦ none | some k ↦ held p k acts ]
held p n (hands r ∷ acts) = elim (less (picks p r) n) [ none ↦ none | some k ↦ held p k acts ]

-- Every reference is given up, and none that is not held, of each object.
abbrev pub IsClean : List Act → Type 0
IsClean acts = (p : Ref → Bool) → held p 0 acts ≡ some 0

less-more : (b : Bool) (n : ℕ) → less b (more b n) ≡ some n
unfolding less more
less-more true n = refl
less-more false n = refl

less-more_under : (a b : Bool) (n : ℕ) → less a (more b (more a n)) ≡ some (more b n)
unfolding less more
less-more_under true true n = refl
less-more_under true false n = refl
less-more_under false b n = refl

module _ (p : Ref → Bool) (r : Ref) (n : ℕ) (acts : List Act) where
  pub held-takes : held p n (takes r ∷ acts) ≡ held p (more (picks p r) n) acts
  unfolding held
  held-takes = refl

  pub held-frees : held p (more (picks p r) n) (frees r ∷ acts) ≡ held p n acts
  unfolding held
  held-frees = rw (held, less-more (picks p r) n) refl

  pub held-hands : held p (more (picks p r) n) (hands r ∷ acts) ≡ held p n acts
  unfolding held
  held-hands = rw (held, less-more (picks p r) n) refl

  -- The reference below another one is given up first.
  pub held-frees_under :
      (b : Bool) → held p (more b (more (picks p r) n)) (frees r ∷ acts) ≡ held p (more b n) acts
  unfolding held
  held-frees_under b = rw (held, less-more_under (picks p r) b n) refl

pub held-nil : (p : Ref → Bool) (n : ℕ) → held p n [] ≡ some n
unfolding held
held-nil p n = refl

-- To count through a run of acts.
pub ruleset ref_rules = (held-nil, held-takes, held-frees, held-hands, held-frees_under)
