-- ===== src/Convert/Maps/Wrapped.antt =====
-- What `wrap` stores in the object that it makes.
use breeze_js.Prelude.{
  ◌≡◌, refl, sym, ap, ◌∙◌, inl, inr, List, [], ◌∷◌, Option, none, some, Bool-cases, Option-cases,
  All, some_injective,
}
use breeze_js.Bytes.{Bytes, str_eq, str_eq_iff}
use breeze_js.Convert.{Traits, Host, c_string, lookup}
use breeze_js.Convert.Maps.{wrap_entries, wrap_map}
use breeze_js.Convert.Plain.{IsText, c_string_lem, Lacks, IsMap, IsPlain}

-- Names that can be set and read.
abbrev pub IsName : {V : Type 0} → (Bytes → Type 0) → Bytes × V → Type 0
IsName Settable e = IsText e.0 × Settable e.0

-- A value of the map, or what was there before.
abbrev pub stored : {J V : Type 0} → Traits J V → Option V → Option J → Option J
stored traits none before = before
stored traits (some v) before = traits.wrap v

pub lookup-IsText :
    {V : Type 0} (Settable : Bytes → Type 0) (q : Bytes) (v : V) (es : List (Bytes × V))
    → All (IsName Settable) es
    → lookup q es ≡ some v
    → IsText q
unfolding lookup
lookup-IsText Settable q v [] h found = cc
lookup-IsText Settable q v (e ∷ es) h found = elim (Bool-cases (str_eq q e.0)) [
  | inl same ↦ rw ((str_eq_iff q e.0).0 same) h.0.0
  | inr other ↦ lookup-IsText Settable q v es h.1 (rw other at found)
]

module _ {J O V : Type 0} (host : Host J O) (traits : Traits J V) (Settable : Bytes → Type 0)
    (own : O → Bytes → Option J) (plain : IsPlain host Settable own) where
  lookup-Lacks : (k : Bytes) (es : List (Bytes × V)) → Lacks k es → lookup k es ≡ none
  unfolding lookup
  lookup-Lacks k [] h = refl
  lookup-Lacks k (e ∷ es) h = rw (h.0, lookup-Lacks k es h.1) refl

  -- What `wrap` stores under a name.
  pub wrap_entries-own :
      (q : Bytes) (es : List (Bytes × V)) (obj obj' : O)
      → IsMap es
      → All (IsName Settable) es
      → (wrap_entries host traits es obj).1 ≡ some obj'
      → own obj' q ≡ stored traits (lookup q es) (own obj q)
  unfolding wrap_entries lookup
  wrap_entries-own q [] obj obj' m h done = ap (λ o. own o q) (sym (some_injective done))
  wrap_entries-own q ((key, value) ∷ es) obj obj' m h done =
      elim (Option-cases (traits.wrap value)) [
        | inl e ↦ cc (rw (wrap_entries, e) at done)
        | inr (j, e) ↦ elim (Option-cases (host.set_property_str obj (c_string key) j)) [
          | inl f ↦ cc (rw (wrap_entries, e, f) at done)
          | inr (obj2, f) ↦
              let f' = rw (c_string_lem key h.0.0) at f in
              let ih = wrap_entries-own q es obj2 obj' m.1 h.1 (rw (wrap_entries, e, f) at done) in
              let set = plain.own-set obj obj2 key q j h.0.1 f' in
              elim (Bool-cases (str_eq q key)) [
                | inl same ↦
                    let gone : lookup q es ≡ none =
                      rw ((str_eq_iff q key).0 same) (lookup-Lacks key es m.0) in
                    rw same (ih ∙ rw gone (set ∙ rw same (sym e)))
                | inr other ↦ rw other (ih ∙ ap (stored traits (lookup q es)) (set ∙ rw other refl))
              ]
        ]
      ]

  -- Every value of the map is wrapped.
  pub wrap_entries-wraps :
      (q : Bytes) (v : V) (es : List (Bytes × V)) (obj obj' : O)
      → (wrap_entries host traits es obj).1 ≡ some obj'
      → lookup q es ≡ some v
      → (j : J) × (traits.wrap v ≡ some j)
  unfolding wrap_entries lookup
  wrap_entries-wraps q v [] obj obj' done found = cc
  wrap_entries-wraps q v ((key, value) ∷ es) obj obj' done found =
      elim (Option-cases (traits.wrap value)) [
        | inl e ↦ cc (rw (wrap_entries, e) at done)
        | inr (j, e) ↦ elim (Option-cases (host.set_property_str obj (c_string key) j)) [
          | inl f ↦ cc (rw (wrap_entries, e, f) at done)
          | inr (obj2, f) ↦ elim (Bool-cases (str_eq q key)) [
            | inl same ↦ (j, ap traits.wrap (sym (some_injective (rw same at found))) ∙ e)
            | inr other ↦
                wrap_entries-wraps q v es obj2 obj' (rw (wrap_entries, e, f) at done)
                  (rw other at found)
          ]
        ]
      ]

  pub wrap_map-entries :
      (map : List (Bytes × V)) (obj : O)
      → (wrap_map host traits map).1 ≡ some obj
      → (obj0 : O) × (host.new_object ≡ some obj0)
        × ((wrap_entries host traits map obj0).1 ≡ some obj)
  unfolding wrap_map
  wrap_map-entries map obj done = elim (Option-cases host.new_object) [
    | inl e ↦ cc (rw (wrap_map, e) at done)
    | inr (obj0, e) ↦ (obj0, e, rw (wrap_map, e) at done)
  ]
