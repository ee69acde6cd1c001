-- ===== src/Convert/Maps.antt =====
-- `js_traits<std::map<std::string, Value>>` and the same for std::unordered_map.
pub mod Balance
pub mod Wrapped
pub mod RoundTrip
use breeze_js.Prelude.{List, [], ◌∷◌, ◌++◌, Option, none, some}
use breeze_js.Bytes.{Bytes, str_eq}
use breeze_js.Convert.{
  Act, takes, frees, hands, object, names, element, prop_name, prop_value, Unwrapped, unwrapped,
  js_exception, other_exception, Traits, Host, c_string, insert,
}

module _ {J O V : Type 0} (host : Host J O) (traits : Traits J V) where
  -- The loop of `wrap`, and what follows it.
  unfoldable pub wrap_entries : List (Bytes × V) → O → List Act × Option O
  unfolding c_string
  wrap_entries [] obj = (hands object ∷ [], some obj)
  wrap_entries ((key, value) ∷ rest) obj = elim (traits.wrap value) [
    | none ↦ (frees object ∷ [], none)
    | some js_value ↦ elim (host.set_property_str obj (c_string key) js_value) [
      | none ↦ (takes element ∷ hands element ∷ frees object ∷ [], none)
      | some obj' ↦
          let (acts, result) = wrap_entries rest obj' in
          (takes element ∷ hands element ∷ acts, result)
    ]
  ]

  -- `wrap`: none is JS_EXCEPTION. What it calls is noexcept or C, so no `catch` of it runs.
  unfoldable pub wrap_map : List (Bytes × V) → List Act × Option O
  unfolding wrap_entries
  wrap_map map = elim host.new_object [
    | none ↦ ([], none)
    | some obj ↦ let (acts, result) = wrap_entries map obj in (takes object ∷ acts, result)
  ]

  -- The loop of `unwrap` over the names that are left, and what follows it.
  unfoldable pub unwrap_names :
      O → List Bytes → List (Bytes × V) → List Act × Unwrapped (List (Bytes × V))
  unfolding c_string insert
  unwrap_names obj [] result = (frees names ∷ [], unwrapped result)
  unwrap_names obj (atom ∷ atoms) result = elim (host.atom_to_c_string atom) [
    | none ↦ (frees names ∷ [], js_exception)
    | some name ↦ elim (host.get_property obj atom) [
      | none ↦ (takes prop_name ∷ frees prop_name ∷ frees names ∷ [], js_exception)
      | some value ↦ elim (traits.unwrap value) [
        | js_exception ↦ (
          takes prop_name
              ∷ takes prop_value
              ∷ frees prop_name
              ∷ frees prop_value
              ∷ frees names
              ∷ [],
          js_exception,
        )
        | other_exception ↦ (takes prop_name ∷ takes prop_value ∷ [], other_exception)
        | unwrapped v ↦
            let (acts, r) = unwrap_names obj atoms (insert str_eq (c_string name) v result) in
            (takes prop_name ∷ takes prop_value ∷ frees prop_name ∷ frees prop_value ∷ acts, r)
      ]
    ]
  ]

  unfoldable pub unwrap_map : J → List Act × Unwrapped (List (Bytes × V))
  unfolding unwrap_names
  unwrap_map js_obj = elim (host.as_object js_obj) [
    | none ↦ ([], js_exception)
    | some obj ↦ elim (host.own_property_names obj) [
      | none ↦ ([], js_exception)
      | some atoms ↦ let (acts, r) = unwrap_names obj atoms [] in (takes names ∷ acts, r)
    ]
  ]

  -- The specialisation for std::unordered_map repeats the code.
  abbrev pub wrap_unordered_map : List (Bytes × V) → List Act × Option O
  wrap_unordered_map = wrap_map

  abbrev pub unwrap_unordered_map : J → List Act × Unwrapped (List (Bytes × V))
  unwrap_unordered_map = unwrap_map
