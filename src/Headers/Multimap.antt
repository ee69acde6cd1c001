-- ===== src/Headers/Multimap.antt =====
-- What http::Headers promises: a map from names, in any spelling, to lists of values.
use breeze_js.Prelude.{
  ◌≡◌, refl, ap, ◌∙◌, Bool, true, false, List, [], ◌∷◌, ◌++◌, arith, if◌then◌else◌,
}
use breeze_js.Bytes.{Bytes, str_eq, str_eq_iff}
use breeze_js.Headers.{Header, lower, is_named, get, set, has, append, remove}

-- The calls that change the headers.
pub data Edit : Type 0 where
  set_to append_to : Bytes → Bytes → Edit
  remove_all : Bytes → Edit

unfoldable pub edit : List Header → Edit → List Header
edit hs (set_to name value) = set hs name value
edit hs (append_to name value) = append hs name value
edit hs (remove_all name) = remove hs name

unfoldable pub edits : List Header → List Edit → List Header
edits hs [] = hs
edits hs (e ∷ es) = edits (edit hs e) es

-- The values under a name.
unfoldable pub values : Bytes → List Header → List Bytes
values name [] = []
values name (h ∷ hs) = if is_named name h then h.1 ∷ values name hs else values name hs

-- The specification of an edit: what becomes of the values under `name`.
abbrev pub replace_first : Bytes → List Bytes → List Bytes
replace_first value [] = value ∷ []
replace_first value (v ∷ vs) = value ∷ vs

abbrev pub first_value : List Bytes → Bytes
first_value [] = []
first_value (v ∷ vs) = v

abbrev pub has_value : List Bytes → Bool
has_value [] = false
has_value (v ∷ vs) = true

abbrev pub same_name : Bytes → Bytes → Bool
same_name name other = str_eq (lower name) (lower other)

unfoldable pub values_after : Bytes → List Bytes → Edit → List Bytes
values_after name vs (set_to other value) =
    if same_name other name then replace_first value vs else vs
values_after name vs (append_to other value) = if same_name other name then vs ++ value ∷ [] else vs
values_after name vs (remove_all other) = if same_name other name then [] else vs

unfoldable pub values_after_all : Bytes → List Bytes → List Edit → List Bytes
values_after_all name vs [] = vs
values_after_all name vs (e ∷ es) = values_after_all name (values_after name vs e) es

module _ (name : Bytes) where
  values-set :
      (hs : List Header) (other value : Bytes)
      → values name (set hs other value)
        ≡ (if same_name other name then replace_first value (values name hs) else values name hs)
  unfolding values set is_named
  values-set [] other value = ground arith
  values-set (h ∷ hs) other value = ground (
    arith,
    str_eq_iff (lower other) (lower name),
    str_eq_iff (lower h.0) (lower other),
    str_eq_iff (lower h.0) (lower name),
    values-set hs other value,
  )

  values-append :
      (hs : List Header) (other value : Bytes)
      → values name (append hs other value)
        ≡ (if same_name other name then values name hs ++ value ∷ [] else values name hs)
  unfolding values append is_named
  values-append [] other value = refl
  values-append (h ∷ hs) other value = ground (arith, values-append hs other value)

  values-remove :
      (hs : List Header) (other : Bytes)
      → values name (remove hs other) ≡ (if same_name other name then [] else values name hs)
  unfolding values remove is_named
  values-remove [] other = ground arith
  values-remove (h ∷ hs) other = ground (
    arith,
    str_eq_iff (lower other) (lower name),
    str_eq_iff (lower h.0) (lower other),
    str_eq_iff (lower h.0) (lower name),
    values-remove hs other,
  )

  get-values : (hs : List Header) → get hs name ≡ first_value (values name hs)
  unfolding values get
  get-values [] = refl
  get-values (h ∷ hs) = ground (arith, get-values hs)

  has-values : (hs : List Header) → has hs name ≡ has_value (values name hs)
  unfolding values has
  has-values [] = refl
  has-values (h ∷ hs) = ground (arith, has-values hs)

  values-edit :
      (hs : List Header) (e : Edit) → values name (edit hs e) ≡ values_after name (values name hs) e
  unfolding edit values_after
  values-edit hs (set_to other value) = values-set hs other value
  values-edit hs (append_to other value) = values-append hs other value
  values-edit hs (remove_all other) = values-remove hs other

  values-edits :
      (hs : List Header) (es : List Edit)
      → values name (edits hs es) ≡ values_after_all name (values name hs) es
  unfolding edits values_after_all
  values-edits hs [] = refl
  values-edits hs (e ∷ es) =
      values-edits (edit hs e) es ∙ ap (λ vs. values_after_all name vs es) (values-edit hs e)

-- Headers are a map from names, whatever their spelling, to lists of values. After any run of set,
-- append and remove: `get` gives the first value under the name, or the empty string, and `has` tells
-- whether there is one, where `set` replaces the first value under a name or adds one if there is none,
-- `append` adds one behind the others, and `remove` takes all of them away.
pub edits-values :
    (hs : List Header) (es : List Edit) (name : Bytes)
    → let vs = values_after_all name (values name hs) es in
      (values name (edits hs es) ≡ vs)
      × (get (edits hs es) name ≡ first_value vs)
      × (has (edits hs es) name ≡ has_value vs)
edits-values hs es name =
    let e = values-edits name hs es in
    (
      e,
      get-values name (edits hs es) ∙ ap first_value e,
      has-values name (edits hs es) ∙ ap has_value e,
    )
