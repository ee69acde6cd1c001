-- ===== src/Convert/Keyed/Balance.antt =====
-- The references of the conversions of maps with any type of keys.
use breeze_js.Prelude.{
  ◌≡◌, refl, inl, inr, Bool, true, false, List, [], ◌∷◌, ◌++◌, none, some, Option-cases, All,
}
use breeze_js.Bytes.{Bytes}
use breeze_js.Convert.{
  Ref, object, names, prop_name, prop_value, key_js, unwrapped, js_exception, Traits, Host,
  c_string, insert,
}
use breeze_js.Convert.Refs.{picks, more, less, held, IsClean, ref_rules, held-nil, held-takes}
use breeze_js.Convert.Keyed.{wrap_entries, wrap_map, unwrap_names, unwrap_map}

abbrev pub is_prop_name : Ref → Bool
is_prop_name prop_name = true
is_prop_name _ = false

abbrev pub is_prop_value : Ref → Bool
is_prop_value prop_value = true
is_prop_value _ = false

abbrev pub is_names : Ref → Bool
is_names names = true
is_names _ = false

abbrev pub is_key_js : Ref → Bool
is_key_js key_js = true
is_key_js _ = false

module _ {J O K V : Type 0} (host : Host J O) (keys : Traits J K) (values : Traits J V)
    (same : K → K → Bool) where
  wrap_entries-held :
      (p : Ref → Bool) (es : List (K × V)) (obj : O)
      → held p (more (picks p object) 0) (wrap_entries host keys values same es obj).0 ≡ some 0
  unfolding wrap_entries
  wrap_entries-held p [] obj = simp ref_rules
  wrap_entries-held p ((key, value) ∷ rest) obj = elim (Option-cases (keys.wrap key)) [
    | inl e ↦ rw (wrap_entries, e) (simp ref_rules)
    | inr (k, e) ↦ elim (Option-cases (host.to_c_string k)) [
      | inl f ↦ rw (wrap_entries, e, f) (simp ref_rules)
      | inr (name, f) ↦ elim (Option-cases (values.wrap value)) [
        | inl g ↦ rw (wrap_entries, e, f, g) (simp ref_rules)
        | inr (j, g) ↦ elim (Option-cases (host.set_property_str obj (c_string name) j)) [
          | inl q ↦ rw (wrap_entries, e, f, g, q) (simp ref_rules)
          | inr (obj', q) ↦
              rw (wrap_entries, e, f, g, q) (simp (ref_rules, wrap_entries-held p rest obj'))
        ]
      ]
    ]
  ]

  pub wrap_map-IsClean : (es : List (K × V)) → IsClean (wrap_map host keys values same es).0
  unfolding wrap_map
  wrap_map-IsClean es p = elim (Option-cases host.new_object) [
    | inl e ↦ rw (wrap_map, e) (held-nil p 0)
    | inr (obj, e) ↦ rw (wrap_map, e) (simp (held-takes, wrap_entries-held p es obj))
  ]

  -- The loop of `unwrap` converts the property and goes on.
  abbrev pub Passes : O → Bytes → Type 0
  Passes obj atom =
      (name : Bytes) × (value : J) × (key_value : J) × (key : K) × (v : V) × (host.atom_to_c_string
          atom
        ≡ some name)
      × (host.get_property obj atom ≡ some value)
      × (host.new_string (c_string name) ≡ some key_value)
      × (keys.unwrap key_value ≡ unwrapped key)
      × (values.unwrap value ≡ unwrapped v)

  module _ (obj : O) (atom : Bytes) (name : Bytes) (value : J) (after : List Bytes) where
    no_key-held :
        (before : List Bytes) (result : List (K × V))
        → All (Passes obj) before
        → host.atom_to_c_string atom ≡ some name
        → host.get_property obj atom ≡ some value
        → host.new_string (c_string name) ≡ none
        → let acts = (unwrap_names host keys values same obj (before ++ (atom ∷ after)) result).0 in
          (held is_prop_name 0 acts ≡ none)
          × (held is_prop_value 0 acts ≡ none)
          × (held is_names 1 acts ≡ none)
    unfolding unwrap_names held more picks less
    no_key-held [] result h e f g = rw (unwrap_names, e, f, g) (refl, refl, refl)
    no_key-held (b ∷ before) result ((n, j, k, key, v, h1, h2, h3, h4, h5), hs) e f g =
        rw (unwrap_names, h1, h2, h3, h4, h5)
          (no_key-held before (insert same key v result) hs e f g)

    bad_key-held :
        (key_value : J) (before : List Bytes) (result : List (K × V))
        → All (Passes obj) before
        → host.atom_to_c_string atom ≡ some name
        → host.get_property obj atom ≡ some value
        → host.new_string (c_string name) ≡ some key_value
        → keys.unwrap key_value ≡ js_exception
        → held is_key_js 0
            (unwrap_names host keys values same obj (before ++ (atom ∷ after)) result).0
          ≡ some 1
    unfolding unwrap_names held more picks less
    bad_key-held key_value [] result h e f g q = rw (unwrap_names, e, f, g, q) refl
    bad_key-held key_value (b ∷ before) result ((n, j, k, key, v, h1, h2, h3, h4, h5), hs) e f g q =
        rw (unwrap_names, h1, h2, h3, h4, h5)
          (bad_key-held key_value before (insert same key v result) hs e f g q)

  -- If the engine cannot make the string of a key, behind any properties that are converted, then
  -- `unwrap` frees the name, the property and the list of names, each of which it holds once, and then
  -- again: its own `catch` takes the exception that it throws. Of each of the three, it gives up a
  -- reference that it does not hold.
  pub unwrap_map-frees_twice :
      (js_obj : J) (obj : O) (before : List Bytes) (atom : Bytes) (after : List Bytes)
      (name : Bytes) (value : J)
      → host.as_object js_obj ≡ some obj
      → host.own_property_names obj ≡ some (before ++ (atom ∷ after))
      → All (Passes obj) before
      → host.atom_to_c_string atom ≡ some name
      → host.get_property obj atom ≡ some value
      → host.new_string (c_string name) ≡ none
      → let acts = (unwrap_map host keys values same js_obj).0 in
        (held is_prop_name 0 acts ≡ none)
        × (held is_prop_value 0 acts ≡ none)
        × (held is_names 0 acts ≡ none)
  unfolding unwrap_map held more picks less
  unwrap_map-frees_twice js_obj obj before atom after name value o ns h e f g =
      rw (unwrap_map, o, ns) (no_key-held obj atom name value after before [] h e f g)

  -- If a key is refused, the string of the key stays held.
  pub unwrap_map-leaks_key :
      (js_obj : J) (obj : O) (before : List Bytes) (atom : Bytes) (after : List Bytes)
      (name : Bytes) (value key_value : J)
      → host.as_object js_obj ≡ some obj
      → host.own_property_names obj ≡ some (before ++ (atom ∷ after))
      → All (Passes obj) before
      → host.atom_to_c_string atom ≡ some name
      → host.get_property obj atom ≡ some value
      → host.new_string (c_string name) ≡ some key_value
      → keys.unwrap key_value ≡ js_exception
      → held is_key_js 0 (unwrap_map host keys values same js_obj).0 ≡ some 1
  unfolding unwrap_map held more picks less
  unwrap_map-leaks_key js_obj obj before atom after name value key_value o ns h e f g q =
      rw (unwrap_map, o, ns) (bad_key-held obj atom name value after key_value before [] h e f g q)
