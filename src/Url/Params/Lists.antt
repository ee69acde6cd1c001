-- ===== src/Url/Params/Lists.antt =====
-- The queries of a list of pairs, over what the edits make of the list.
use breeze_js.Prelude.{
  ◌≡◌, refl, ◌≢◌, true, false, List, [], ◌∷◌, ◌++◌, arith, if◌then◌else◌, is_empty, remove_if,
}
use breeze_js.Bytes.{Bytes, str_eq_iff}
use breeze_js.Query.{Pair}
use breeze_js.Url.Params.{is_match, get, get_all, has}

pub get_all-append :
    (xs ys : List Pair) (name : Bytes)
    → get_all (xs ++ ys) name ≡ get_all xs name ++ get_all ys name
unfolding get_all
get_all-append [] ys name = refl
get_all-append (x ∷ xs) ys name = ground (arith, get_all-append xs ys name)

pub get_all_self : (name value : Bytes) → get_all ((name, value) ∷ []) name ≡ value ∷ []
unfolding get_all
get_all_self name value = ground (arith, str_eq_iff name name)

pub get_all_miss :
    (name other value : Bytes) → other ≢ name → get_all ((name, value) ∷ []) other ≡ []
unfolding get_all
get_all_miss name other value ne = ground (arith, str_eq_iff name other)

-- Removing a name takes all its values away, and no other name's.
pub get_all-remove_self :
    (name : Bytes) (xs : List Pair) → get_all (remove_if (is_match name []) xs) name ≡ []
unfolding get_all remove_if is_match
get_all-remove_self name [] = refl
get_all-remove_self name (x ∷ xs) = ground (arith, get_all-remove_self name xs)

pub get_all-remove_other :
    (name other : Bytes) (xs : List Pair)
    → other ≢ name
    → get_all (remove_if (is_match name []) xs) other ≡ get_all xs other
unfolding get_all remove_if is_match
get_all-remove_other name other [] ne = refl
get_all-remove_other name other (x ∷ xs) ne =
    ground (arith, str_eq_iff x.0 name, str_eq_iff x.0 other, get_all-remove_other name other xs)

pub has-remove :
    (name value : Bytes) (xs : List Pair)
    → has (remove_if (is_match name value) xs) name value ≡ false
unfolding has remove_if
has-remove name value [] = refl
has-remove name value (x ∷ xs) = ground (arith, has-remove name value xs)

-- `get` is the first of `get_all`, and `has` with no value tells whether there is one.
abbrev pub first_or_empty : List Bytes → Bytes
first_or_empty [] = []
first_or_empty (v ∷ vs) = v

pub get-first : (xs : List Pair) (name : Bytes) → get xs name ≡ first_or_empty (get_all xs name)
unfolding get get_all
get-first [] name = refl
get-first (x ∷ xs) name = ground (arith, get-first xs name)

pub has-get_all :
    (xs : List Pair) (name : Bytes)
    → has xs name [] ≡ (if is_empty (get_all xs name) then false else true)
unfolding has get_all is_match
has-get_all [] name = refl
has-get_all (x ∷ xs) name = ground (arith, has-get_all xs name)
