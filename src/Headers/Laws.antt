-- ===== src/Headers/Laws.antt =====
-- Lookup over the edits of the headers, with names that differ in case taken as one.
use breeze_js.Prelude.{◌≡◌, refl, true, false, List, [], ◌∷◌, arith, if◌then◌else◌, suc, length}
use breeze_js.Bytes.{Bytes, str_eq, str_eq_iff}
use breeze_js.Headers.{Header, lower, is_named, get, set, has, append, remove}

-- A value that was set is found under every spelling of its name, and other names are as before.
pub get-set :
    (hs : List Header) (name other value : Bytes)
    → get (set hs name value) other
      ≡ (if str_eq (lower name) (lower other) then value else get hs other)
unfolding get set is_named
get-set [] name other value = refl
get-set (h ∷ hs) name other value = ground (
  arith,
  str_eq_iff (lower name) (lower other),
  str_eq_iff (lower h.0) (lower name),
  str_eq_iff (lower h.0) (lower other),
  get-set hs name other value,
)

pub has-set :
    (hs : List Header) (name other value : Bytes)
    → has (set hs name value) other
      ≡ (if str_eq (lower name) (lower other) then true else has hs other)
unfolding has set is_named
has-set [] name other value = refl
has-set (h ∷ hs) name other value = ground (
  arith,
  str_eq_iff (lower name) (lower other),
  str_eq_iff (lower h.0) (lower name),
  str_eq_iff (lower h.0) (lower other),
  has-set hs name other value,
)

-- A name that was removed is gone in every spelling, and other names are as before.
pub has-remove :
    (hs : List Header) (name other : Bytes)
    → has (remove hs name) other
      ≡ (if str_eq (lower name) (lower other) then false else has hs other)
unfolding has remove is_named
has-remove [] name other = ground arith
has-remove (h ∷ hs) name other = ground (
  arith,
  str_eq_iff (lower name) (lower other),
  str_eq_iff (lower h.0) (lower name),
  str_eq_iff (lower h.0) (lower other),
  has-remove hs name other,
)

pub get-remove :
    (hs : List Header) (name other : Bytes)
    → get (remove hs name) other ≡ (if str_eq (lower name) (lower other) then [] else get hs other)
unfolding get remove is_named
get-remove [] name other = ground arith
get-remove (h ∷ hs) name other = ground (
  arith,
  str_eq_iff (lower name) (lower other),
  str_eq_iff (lower h.0) (lower name),
  str_eq_iff (lower h.0) (lower other),
  get-remove hs name other,
)

-- `append` shows a value only where no header of the name stands before it.
pub get-append :
    (hs : List Header) (name other value : Bytes)
    → get (append hs name value) other ≡ (
        if has hs other
        then get hs other
        else if str_eq (lower name) (lower other)
        then value
        else [])
unfolding get has append is_named
get-append [] name other value = refl
get-append (h ∷ hs) name other value = ground (arith, get-append hs name other value)

-- `set` adds a header only for a name that is not there.
pub length-set :
    (hs : List Header) (name value : Bytes)
    → length (set hs name value) ≡ (if has hs name then length hs else suc (length hs))
unfolding set has
length-set [] name value = refl
length-set (h ∷ hs) name value = ground (arith, length-set hs name value)
