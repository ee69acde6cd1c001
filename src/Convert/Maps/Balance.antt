-- ===== src/Convert/Maps/Balance.antt =====
-- The references of the conversions of maps with string keys.
use breeze_js.Prelude.{
  ◌≡◌, ◌↔◌, ◌≢◌, refl, sym, ◌∙◌, inl, inr, Bool, true, false, List, [], ◌∷◌, some, Option-cases,
}
use breeze_js.Bytes.{Bytes, str_eq}
use breeze_js.Convert.{
  Ref, object, names, prop_name, prop_value, other_exception, Unwrapped-cases, Traits, Host,
  c_string, insert,
}
use breeze_js.Convert.Refs.{picks, more, held, IsClean, ref_rules, held-nil, held-takes}
use breeze_js.Convert.Maps.{wrap_entries, wrap_map, unwrap_names, unwrap_map}

abbrev is_names : Ref → Bool
is_names names = true
is_names _ = false

module _ {J O V : Type 0} (host : Host J O) (traits : Traits J V) where
  wrap_entries-held :
      (p : Ref → Bool) (es : List (Bytes × V)) (obj : O)
      → held p (more (picks p object) 0) (wrap_entries host traits es obj).0 ≡ some 0
  unfolding wrap_entries
  wrap_entries-held p [] obj = simp ref_rules
  wrap_entries-held p ((key, value) ∷ rest) obj = elim (Option-cases (traits.wrap value)) [
    | inl e ↦ rw (wrap_entries, e) (simp ref_rules)
    | inr (j, e) ↦ elim (Option-cases (host.set_property_str obj (c_string key) j)) [
      | inl f ↦ rw (wrap_entries, e, f) (simp ref_rules)
      | inr (obj', f) ↦ rw (wrap_entries, e, f) (simp (ref_rules, wrap_entries-held p rest obj'))
    ]
  ]

  wrap_map-IsClean : (es : List (Bytes × V)) → IsClean (wrap_map host traits es).0
  unfolding wrap_map
  wrap_map-IsClean es p = elim (Option-cases host.new_object) [
    | inl e ↦ rw (wrap_map, e) (held-nil p 0)
    | inr (obj, e) ↦ rw (wrap_map, e) (simp (held-takes, wrap_entries-held p es obj))
  ]

  unwrap_names-held :
      (p : Ref → Bool) (obj : O) (atoms : List Bytes) (result : List (Bytes × V))
      → (unwrap_names host traits obj atoms result).1 ≢ other_exception
      → held p (more (picks p names) 0) (unwrap_names host traits obj atoms result).0 ≡ some 0
  unfolding unwrap_names
  unwrap_names-held p obj [] result h = simp ref_rules
  unwrap_names-held p obj (atom ∷ atoms) result h =
      elim (Option-cases (host.atom_to_c_string atom)) [
        | inl e ↦ rw (unwrap_names, e) (simp ref_rules)
        | inr (name, e) ↦ elim (Option-cases (host.get_property obj atom)) [
          | inl f ↦ rw (unwrap_names, e, f) (simp ref_rules)
          | inr (value, f) ↦ elim (Unwrapped-cases (traits.unwrap value)) [
            | inl (v, g) ↦
                let result' = insert str_eq (c_string name) v result in
                rw (unwrap_names, e, f, g)
                  (simp (
                    ref_rules,
                    unwrap_names-held p obj atoms result' (λ q. h (rw (unwrap_names, e, f, g) q)),
                  ))
            | inr (inl g) ↦ rw (unwrap_names, e, f, g) (simp ref_rules)
            | inr (inr g) ↦ absurd (h (rw (unwrap_names, e, f, g) refl))
          ]
        ]
      ]

  -- Behind an exception that `catch` does not know, what the entry and the names hold stays held.
  unwrap_names-leaks :
      (p : Ref → Bool) (obj : O) (atoms : List Bytes) (result : List (Bytes × V))
      → (unwrap_names host traits obj atoms result).1 ≡ other_exception
      → held p (more (picks p names) 0) (unwrap_names host traits obj atoms result).0
        ≡ some (more (picks p prop_value) (more (picks p prop_name) (more (picks p names) 0)))
  unfolding unwrap_names
  unwrap_names-leaks p obj [] result h = cc
  unwrap_names-leaks p obj (atom ∷ atoms) result h =
      elim (Option-cases (host.atom_to_c_string atom)) [
        | inl e ↦ cc (rw (unwrap_names, e) at h)
        | inr (name, e) ↦ elim (Option-cases (host.get_property obj atom)) [
          | inl f ↦ cc (rw (unwrap_names, e, f) at h)
          | inr (value, f) ↦ elim (Unwrapped-cases (traits.unwrap value)) [
            | inl (v, g) ↦
                let result' = insert str_eq (c_string name) v result in
                let h' = rw (unwrap_names, e, f, g) at h in
                rw (unwrap_names, e, f, g)
                  (simp (ref_rules, unwrap_names-leaks p obj atoms result' h'))
            | inr (inl g) ↦ cc (rw (unwrap_names, e, f, g) at h)
            | inr (inr g) ↦ rw (unwrap_names, e, f, g) (simp ref_rules)
          ]
        ]
      ]

  unwrap_map-IsClean :
      (js_obj : J)
      → (unwrap_map host traits js_obj).1 ≢ other_exception
      → IsClean (unwrap_map host traits js_obj).0
  unfolding unwrap_map
  unwrap_map-IsClean js_obj h p = elim (Option-cases (host.as_object js_obj)) [
    | inl e ↦ rw (unwrap_map, e) (held-nil p 0)
    | inr (obj, e) ↦ elim (Option-cases (host.own_property_names obj)) [
      | inl f ↦ rw (unwrap_map, e, f) (held-nil p 0)
      | inr (atoms, f) ↦
          rw (unwrap_map, e, f)
            (simp (held-takes, unwrap_names-held p obj atoms [] (λ q. h (rw (unwrap_map, e, f) q))))
    ]
  ]

  unwrap_map-leaks :
      (js_obj : J)
      → (unwrap_map host traits js_obj).1 ≡ other_exception
      → held is_names 0 (unwrap_map host traits js_obj).0 ≡ some 1
  unfolding unwrap_map more picks
  unwrap_map-leaks js_obj h = elim (Option-cases (host.as_object js_obj)) [
    | inl e ↦ cc (rw (unwrap_map, e) at h)
    | inr (obj, e) ↦ elim (Option-cases (host.own_property_names obj)) [
      | inl f ↦ cc (rw (unwrap_map, e, f) at h)
      | inr (atoms, f) ↦
          rw (unwrap_map, e, f)
            (simp
              (held-takes, unwrap_names-leaks is_names obj atoms [] (rw (unwrap_map, e, f) at h)))
    ]
  ]

  -- The conversions of maps with string keys give up every reference that they take, and none that
  -- they do not hold, on every branch: `wrap` always, and `unwrap` exactly if the conversion of no
  -- value throws an exception other than qjs::exception, which their `catch` does not know.
  pub maps-IsClean :
      (map : List (Bytes × V)) (js_obj : J)
      → IsClean (wrap_map host traits map).0
        × (IsClean (unwrap_map host traits js_obj).0
            ↔ ((unwrap_map host traits js_obj).1 ≢ other_exception))
  maps-IsClean map js_obj = (
    wrap_map-IsClean map,
    (λ clean q. cc (sym (unwrap_map-leaks js_obj q) ∙ clean is_names), unwrap_map-IsClean js_obj),
  )
