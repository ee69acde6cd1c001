-- ===== src/Convert.antt =====
-- How C++ maps cross to the engine and back: the js_traits of std::map and std::unordered_map in
-- src/breeze-js/headers/breeze-js/quickjspp.hpp, each by its result and by the references that it
-- takes and gives up.
--
-- The engine and the js_traits of keys and values are parameters. A map is the list of its entries in
-- the order of its iteration. Variants are in Convert/Variants.
pub mod Refs
pub mod Plain
pub mod Maps
pub mod Keyed
pub mod Variants
mod Tests
use breeze_js.Prelude.{
  ℕ, ◌≡◌, refl, ◌⊎◌, inl, inr, Bool, true, false, List, [], ◌∷◌, Option, none, some, ◌==◌,
  if◌then◌else◌,
}
use breeze_js.Bytes.{Bytes, str_eq}

-- What a conversion holds a reference to: the object that it makes, the property names that it
-- asks for, and what belongs to the entry at hand.
pub data Ref : Type 0 where
  object names key_js key_str element prop_name prop_value : Ref

-- A reference is taken, freed, or handed to the caller or to JS_SetPropertyStr, which own it then.
pub data Act : Type 0 where
  takes frees hands : Ref → Act

-- What js_traits::unwrap comes to: a value, a qjs::exception, or another exception.
pub data Unwrapped (T : Type 0) : Type 0 where
  unwrapped : T → Unwrapped T
  js_exception : Unwrapped T
  other_exception : Unwrapped T

-- To split on what an unwrap comes to, and keep the equation.
pub Unwrapped-cases :
    {T : Type 0} (r : Unwrapped T)
    → ((v : T) × (r ≡ unwrapped v)) ⊎ ((r ≡ js_exception) ⊎ (r ≡ other_exception))
Unwrapped-cases (unwrapped v) = inl (v, refl)
Unwrapped-cases js_exception = inr (inl refl)
Unwrapped-cases other_exception = inr (inr refl)

-- js_traits<T>, over the engine's values `J`. Its `wrap` is noexcept; none is JS_EXCEPTION.
pub record Traits (J T : Type 0) : Type 0 where
  pub wrap : T → Option J
  pub unwrap : J → Unwrapped T

-- What the conversions call of the engine, over values `J` and objects `O`; none for a failure. A
-- `const char *` is the bytes in front of its NUL.
pub record Host (J O : Type 0) : Type 0 where
  pub new_object : Option O
  pub as_object : J → Option O
  pub set_property_str : O → Bytes → J → Option O
  pub own_property_names : O → Option (List Bytes)
  pub get_property : O → Bytes → Option J
  pub atom_to_c_string : Bytes → Option Bytes
  pub to_c_string : J → Option Bytes
  pub new_string : Bytes → Option J

-- What a C string is of these bytes: `key.c_str()` read by the engine, and strlen.
unfoldable pub c_string : Bytes → Bytes
c_string [] = []
c_string (c ∷ cs) = if c == 0 then [] else c ∷ c_string cs

-- `result[key] = value`, with the equality of keys.
unfoldable pub insert : {K V : Type 0} → (K → K → Bool) → K → V → List (K × V) → List (K × V)
insert same k v [] = (k, v) ∷ []
insert same k v (e ∷ es) = if same k e.0 then (e.0, v) ∷ es else e ∷ insert same k v es

-- `map.find(key)`
unfoldable pub lookup : {V : Type 0} → Bytes → List (Bytes × V) → Option V
lookup k [] = none
lookup k (e ∷ es) = if str_eq k e.0 then some e.1 else lookup k es
