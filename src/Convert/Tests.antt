-- ===== src/Convert/Tests.antt =====
-- An engine with numbers and flat objects, and the theorems at it.
use breeze_js.Prelude.{
  ℕ, ◌≡◌, ◌↔◌, ◌≢◌, refl, sym, ap, ◌∙◌, inl, inr, true, List, [], ◌∷◌, Option, none, some,
  if◌then◌else◌, ◌==◌, Bool-cases, arith, some_injective, map,
}
use breeze_js.Bytes.{Bytes, codes, str_eq}
use breeze_js.Convert.{
  unwrapped, js_exception, other_exception, Traits, Host, insert, lookup, c_string,
}
use breeze_js.Convert.Refs.{held, IsClean}
use breeze_js.Convert.Plain.{is_key, IsPlain, lookup-insert}
use breeze_js.Convert.Maps.{wrap_map, wrap_entries, unwrap_map}
use breeze_js.Convert.Maps.Balance.{maps-IsClean}
use breeze_js.Convert.Maps.RoundTrip.{unwrap_map-wrap_map}
use breeze_js.Convert.Keyed as Keyed
use breeze_js.Convert.Keyed.Balance.{is_names, is_prop_name, is_prop_value, unwrap_map-frees_twice}

abbrev Object : Type 0
Object = List (Bytes × ℕ)

data Js : Type 0 where
  number : ℕ → Js
  flat : Object → Js

abbrev numbers : Traits Js ℕ
numbers = record {
  wrap = λ n. some (number n);
  unwrap = λ j. elim j [ number n ↦ unwrapped n | flat o ↦ js_exception ];
}

abbrev as_flat : Js → Option Object
as_flat (number n) = none
as_flat (flat o) = some o

abbrev set_number : Object → Bytes → Js → Option Object
set_number o k (number n) = some (insert str_eq k n o)
set_number o k (flat p) = none

abbrev key_of : Bytes × ℕ → Bytes
key_of e = e.0

abbrev as_number : Option ℕ → Option Js
as_number none = none
as_number (some n) = some (number n)

abbrev own : Object → Bytes → Option Js
own o q = as_number (lookup q o)

abbrev engine : (Bytes → Option Js) → Host Js Object
engine new_string = record {
  new_object = some [];
  as_object = as_flat;
  set_property_str = set_number;
  own_property_names = λ o. some (map key_of o);
  get_property = own;
  atom_to_c_string = some;
  to_c_string = λ j. none;
  new_string = new_string;
}

abbrev Anything : Bytes → Type 0
Anything k = Unit

keys_own :
    (o : Object) (q : Bytes) → (is_key q (map key_of o) ≡ true) ↔ ((j : Js) × (own o q ≡ some j))
unfolding lookup
keys_own [] q = (λ k. cc k, λ j. cc (j.1))
keys_own (e ∷ o) q = elim (Bool-cases (str_eq q e.0)) [
  | inl same ↦ (λ k. (number e.1, rw same refl), λ j. rw same refl)
  | inr other ↦
      let (fore, back) = keys_own o q in
      (λ k. rw other (fore (rw other at k)), λ j. rw other (back (rw other at j)))
]

own-set :
    (o o' : Object) (k q : Bytes) (j : Js)
    → set_number o k j ≡ some o'
    → own o' q ≡ (if str_eq q k then some j else own o q)
own-set o o' k q (number n) e =
    ap (λ p. own p q) (sym (some_injective e))
    ∙ ap as_number (lookup-insert q k n o)
    ∙ elim (Bool-cases (str_eq q k)) [ inl same ↦ rw same refl | inr other ↦ rw other refl ]
own-set o o' k q (flat p) e = cc

engine-IsPlain : IsPlain (engine (λ s. none)) Anything own
unfolding lookup
engine-IsPlain = record {
  own-new = λ o k e. ap (λ p. own p k) (sym (some_injective e));
  own-set = λ o o' k q j h e. own-set o o' k q j e;
  own_names = λ o. (map key_of o, refl, keys_own o);
  get-own = λ o q j h. h;
  atom_text = λ a. refl;
}

abbrev plain_engine : Host Js Object
plain_engine = engine (λ s. none)

abbrev entries : Object
entries = (codes "b", 2) ∷ (codes "a", 1) ∷ []

entries_wrap : (wrap_map plain_engine numbers entries).1 ≡ some entries
unfolding wrap_map wrap_entries c_string insert str_eq
entries_wrap = refl

unwrap_map-wrap_map_example :
    (m : Object) × ((unwrap_map plain_engine numbers (flat entries)).1 ≡ unwrapped m)
    × ((k : Bytes) → lookup k m ≡ lookup k entries)
unfolding str_eq
unwrap_map-wrap_map_example =
    unwrap_map-wrap_map plain_engine numbers Anything own engine-IsPlain entries entries
      (λ v j e. ap numbers.unwrap (sym (some_injective e))) ((refl, tt), (tt, tt)) (ground arith)
      entries_wrap (flat entries) refl

maps-IsClean_example :
    IsClean (wrap_map plain_engine numbers entries).0
    × (IsClean (unwrap_map plain_engine numbers (flat entries)).0
        ↔ ((unwrap_map plain_engine numbers (flat entries)).1 ≢ other_exception))
maps-IsClean_example = maps-IsClean plain_engine numbers entries (flat entries)

-- The keys are strings of their own, and none can be made for "a".
abbrev string_of : Bytes → Option Js
string_of s = if str_eq s (codes "a") then none else some (number 0)

unwrap_map-frees_twice_example :
    let acts = (Keyed.unwrap_map (engine string_of) numbers numbers ◌==◌ (flat entries)).0 in
    (held is_prop_name 0 acts ≡ none)
    × (held is_prop_value 0 acts ≡ none)
    × (held is_names 0 acts ≡ none)
unfolding str_eq lookup c_string
unwrap_map-frees_twice_example =
    unwrap_map-frees_twice (engine string_of) numbers numbers ◌==◌ (flat entries) entries
      (codes "b" ∷ []) (codes "a") [] (codes "a") (number 1) refl refl
      ((codes "b", number 2, number 0, 0, 2, refl, refl, refl, refl, refl), tt) refl refl refl
