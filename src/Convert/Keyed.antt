-- ===== src/Convert/Keyed.antt =====
-- `js_traits<std::map<Key, Value>>` for any type of keys, and the same for std::unordered_map.
pub mod Balance
use breeze_js.Prelude.{Bool, List, [], ◌∷◌, ◌++◌, Option, none, some}
use breeze_js.Bytes.{Bytes}
use breeze_js.Convert.{
  Act, takes, frees, hands, object, names, key_js, key_str, element, prop_name, prop_value,
  Unwrapped, unwrapped, js_exception, other_exception, Traits, Host, c_string, insert,
}

module _ {J O K V : Type 0} (host : Host J O) (keys : Traits J K) (values : Traits J V)
    (same : K → K → Bool) where
  -- The loop of `wrap`, and what follows it.
  unfoldable pub wrap_entries : List (K × V) → O → List Act × Option O
  unfolding c_string
  wrap_entries [] obj = (hands object ∷ [], some obj)
  wrap_entries ((key, value) ∷ rest) obj = elim (keys.wrap key) [
    | none ↦ (frees object ∷ [], none)
    | some key_value ↦ elim (host.to_c_string key_value) [
      | none ↦ (takes key_js ∷ frees key_js ∷ frees object ∷ [], none)
      | some name ↦ elim (values.wrap value) [
        | none ↦
            (takes key_js ∷ takes key_str ∷ frees key_str ∷ frees key_js ∷ frees object ∷ [], none)
        | some js_value ↦
            let held =
              takes key_js
              ∷ takes key_str
              ∷ takes element
              ∷ hands element
              ∷ frees key_str
              ∷ frees key_js
              ∷ [] in
            elim (host.set_property_str obj (c_string name) js_value) [
              | none ↦ (held ++ frees object ∷ [], none)
              | some obj' ↦ let (acts, result) = wrap_entries rest obj' in (held ++ acts, result)
            ]
      ]
    ]
  ]

  unfoldable pub wrap_map : List (K × V) → List Act × Option O
  unfolding wrap_entries
  wrap_map map = elim host.new_object [
    | none ↦ ([], none)
    | some obj ↦ let (acts, result) = wrap_entries map obj in (takes object ∷ acts, result)
  ]

  -- What a failure behind JS_GetProperty frees.
  abbrev pub frees_entry : List Act
  frees_entry = frees prop_name ∷ frees prop_value ∷ frees names ∷ []

  -- The loop of `unwrap`. The exception that follows a failed JS_NewStringLen is thrown in the `try`,
  -- so its `catch` frees the entry again.
  unfoldable pub unwrap_names : O → List Bytes → List (K × V) → List Act × Unwrapped (List (K × V))
  unfolding c_string insert
  unwrap_names obj [] result = (frees names ∷ [], unwrapped result)
  unwrap_names obj (atom ∷ atoms) result = elim (host.atom_to_c_string atom) [
    | none ↦ (frees names ∷ [], js_exception)
    | some name ↦ elim (host.get_property obj atom) [
      | none ↦ (takes prop_name ∷ frees prop_name ∷ frees names ∷ [], js_exception)
      | some value ↦
          let held = takes prop_name ∷ takes prop_value ∷ [] in
          elim (host.new_string (c_string name)) [
            | none ↦ (held ++ (frees_entry ++ frees_entry), js_exception)
            | some key_value ↦ elim (keys.unwrap key_value) [
              | js_exception ↦ (held ++ (takes key_js ∷ frees_entry), js_exception)
              | other_exception ↦ (held ++ takes key_js ∷ [], other_exception)
              | unwrapped key ↦ elim (values.unwrap value) [
                | js_exception ↦ (held ++ (takes key_js ∷ frees key_js ∷ frees_entry), js_exception)
                | other_exception ↦ (held ++ takes key_js ∷ frees key_js ∷ [], other_exception)
                | unwrapped v ↦
                    let (acts, r) = unwrap_names obj atoms (insert same key v result) in
                    (
                      held
                          ++ (takes key_js
                              ∷ frees key_js
                              ∷ frees prop_name
                              ∷ frees prop_value
                              ∷ acts),
                      r,
                    )
              ]
            ]
          ]
    ]
  ]

  unfoldable pub unwrap_map : J → List Act × Unwrapped (List (K × V))
  unfolding unwrap_names
  unwrap_map js_obj = elim (host.as_object js_obj) [
    | none ↦ ([], js_exception)
    | some obj ↦ elim (host.own_property_names obj) [
      | none ↦ ([], js_exception)
      | some atoms ↦ let (acts, r) = unwrap_names obj atoms [] in (takes names ∷ acts, r)
    ]
  ]

  -- The specialisation for std::unordered_map repeats the code.
  abbrev pub wrap_unordered_map : List (K × V) → List Act × Option O
  wrap_unordered_map = wrap_map

  abbrev pub unwrap_unordered_map : J → List Act × Unwrapped (List (K × V))
  unwrap_unordered_map = unwrap_map
