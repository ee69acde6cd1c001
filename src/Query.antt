-- ===== src/Query.antt =====
-- The text form of a query: `URLSearchParams::$parse_query_string` and `URLSearchParams::toString`
-- of src/breeze-js/binding/std/infra.cc.
pub mod Fuel
pub mod RoundTrip
mod Tests
use breeze_js.Prelude.{
  ℕ, zero, suc, List, [], ◌∷◌, ◌++◌, Option, none, some, ◌==◌, if◌then◌else◌, length,
}
use breeze_js.Bytes.{Bytes}
use breeze_js.Percent.{percent_encode, percent_decode}

abbrev pub Pair : Type 0
Pair = Bytes × Bytes

-- What stands in front of the first `c` and, if there is one, what stands behind it: `find` with
-- the two calls of `substr`.
unfoldable pub cut : ℕ → Bytes → Bytes × Option Bytes
cut c [] = ([], none)
cut c (x ∷ xs) =
    let (before, after) = cut c xs in if x == c then ([], some xs) else (x ∷ before, after)

abbrev pub value_or_empty : Option Bytes → Bytes
value_or_empty none = []
value_or_empty (some v) = v

-- One turn of the loop: the name up to the first '=', and the value behind it, or no value.
unfoldable pub parse_pair : Bytes → Pair
parse_pair pair =
    let (name, value) = cut b'=' pair in
    (percent_decode name, percent_decode (value_or_empty value))

-- The next turn of the loop, on what stands behind an '&'.
abbrev pub next_turn : (Bytes → List Pair) → Option Bytes → List Pair
next_turn parse none = []
next_turn parse (some rest) = parse rest

-- `while (pos < current.size())`, over what is left of the string from `pos`.
unfoldable pub parse_pairs : ℕ → Bytes → List Pair
parse_pairs zero s = []
parse_pairs (suc fuel) [] = []
parse_pairs (suc fuel) (x ∷ xs) =
    let (pair, after) = cut b'&' (x ∷ xs) in parse_pair pair ∷ next_turn (parse_pairs fuel) after

-- Every turn reads a character at least, so the length is enough fuel.
unfoldable pub parse_query_string : Bytes → List Pair
unfolding parse_pairs parse_pair cut
parse_query_string query = parse_pairs (length query) query

unfoldable pub print_pair : Pair → Bytes
print_pair (name, value) = percent_encode name ++ (b'=' ∷ percent_encode value)

unfoldable pub to_string : List Pair → Bytes
unfolding print_pair
to_string [] = []
to_string (p ∷ []) = print_pair p
to_string (p ∷ q ∷ ps) = print_pair p ++ (b'&' ∷ to_string (q ∷ ps))
