-- ===== src/Query/Fuel.antt =====
-- How much fuel the parser of a query needs.
use breeze_js.Prelude.{
  ℕ, zero, suc, ◌≤◌, ◌<◌, ◌≡◌, refl, ap, List, [], ◌∷◌, Option, none, some, arith, length, ◌==◌,
  Bool-cases, inl, inr,
}
use breeze_js.Bytes.{Bytes}
use breeze_js.Query.{Pair, next_turn, cut, parse_pair, parse_pairs, parse_query_string}

-- What stands behind a cut is shorter than the string.
abbrev Shorter : ℕ → Option Bytes → Type 0
Shorter n none = Unit
Shorter n (some r) = length r < n

Shorter-suc : (n : ℕ) (o : Option Bytes) → Shorter n o → Shorter (suc n) o
Shorter-suc n none h = tt
Shorter-suc n (some r) h = omega arith

cut-Shorter : (c : ℕ) (s : Bytes) → Shorter (length s) (cut c s).1
unfolding cut
cut-Shorter c [] = tt
cut-Shorter c (x ∷ xs) = elim (Bool-cases (x == c)) [
  | inl here ↦ rw here (omega arith)
  | inr there ↦ rw there (Shorter-suc (length xs) (cut c xs).1 (cut-Shorter c xs))
]

next_turn_eq :
    (n : ℕ) (f g : Bytes → List Pair) (o : Option Bytes)
    → ((s : Bytes) → length s < n → f s ≡ g s)
    → Shorter n o
    → next_turn f o ≡ next_turn g o
next_turn_eq n f g none same h = refl
next_turn_eq n f g (some r) same h = same r h

pub parse_pairs-fuel :
    (f g : ℕ) (s : Bytes) → length s ≤ f → length s ≤ g → parse_pairs f s ≡ parse_pairs g s
unfolding parse_pairs
parse_pairs-fuel zero zero [] hf hg = refl
parse_pairs-fuel zero (suc g) [] hf hg = refl
parse_pairs-fuel (suc f) zero [] hf hg = refl
parse_pairs-fuel (suc f) (suc g) [] hf hg = refl
parse_pairs-fuel zero g (x ∷ xs) hf hg = absurd (omega arith)
parse_pairs-fuel (suc f) zero (x ∷ xs) hf hg = absurd (omega arith)
parse_pairs-fuel (suc f) (suc g) (x ∷ xs) hf hg =
    let (pair, after) = cut b'&' (x ∷ xs) in
    ap (◌∷◌ (parse_pair pair)) (
      next_turn_eq (length (x ∷ xs)) (parse_pairs f) (parse_pairs g) after
        (λ s h. parse_pairs-fuel f g s (omega arith) (omega arith)) (cut-Shorter b'&' (x ∷ xs)))

-- The loop of $parse_query_string as an equation: the pair in front of the first '&', and the pairs
-- of what stands behind it.
pub parse_query_string_lem :
    (x : ℕ) (xs : Bytes)
    → parse_query_string (x ∷ xs)
      ≡ parse_pair (cut b'&' (x ∷ xs)).0 ∷ next_turn parse_query_string (cut b'&' (x ∷ xs)).1
unfolding parse_query_string
parse_query_string_lem x xs =
    let (pair, after) = cut b'&' (x ∷ xs) in
    ap (◌∷◌ (parse_pair pair)) (
      next_turn_eq (length (x ∷ xs)) (parse_pairs (length xs)) parse_query_string after
        (λ s h. parse_pairs-fuel (length xs) (length s) s (omega arith) (omega arith))
        (cut-Shorter b'&' (x ∷ xs)))
