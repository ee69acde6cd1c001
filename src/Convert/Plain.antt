-- ===== src/Convert/Plain.antt =====
-- Plain objects of the engine, as it documents them, and maps as lists of entries.
use breeze_js.Prelude.{
  ◌≡◌, ◌↔◌, refl, inl, inr, Bool, true, false, List, [], ◌∷◌, Option, none, some, if◌then◌else◌,
  ◌==◌, Bool-cases, arith, All,
}
use breeze_js.Bytes.{Bytes, str_eq, str_eq_iff}
use breeze_js.Convert.{Host, c_string, insert, lookup}

-- No NUL stands in it.
abbrev pub IsText : Bytes → Type 0
IsText = All (λ c. (c == 0) ≡ false)

pub c_string_lem : (s : Bytes) → IsText s → c_string s ≡ s
unfolding c_string
c_string_lem [] h = refl
c_string_lem (c ∷ s) h = rw (h.0, c_string_lem s h.1) refl

-- No key is `k`.
abbrev pub Lacks : {V : Type 0} → Bytes → List (Bytes × V) → Type 0
Lacks k = All (λ e. str_eq k e.0 ≡ false)

-- The keys of a map differ.
abbrev pub IsMap : {V : Type 0} → List (Bytes × V) → Type 0
IsMap [] = Unit
IsMap (e ∷ es) = Lacks e.0 es × IsMap es

abbrev pub is_key : Bytes → List Bytes → Bool
is_key k [] = false
is_key k (n ∷ ns) = if str_eq k n then true else is_key k ns

-- What the engine documents of plain objects, with memory to spare: `own` is what is found under a
-- name of the object. Setting a name that `Settable` allows (the others are those that a setter of a
-- prototype takes, such as __proto__) makes an own property; the names are those of the own
-- properties, and the atom of a name has its text.
pub record IsPlain {J O : Type 0} (host : Host J O) (Settable : Bytes → Type 0)
    (own : O → Bytes → Option J) : Type 0 where
  pub own-new : (obj : O) (k : Bytes) → host.new_object ≡ some obj → own obj k ≡ none
  pub own-set :
      (obj obj' : O) (k q : Bytes) (j : J)
      → Settable k
      → host.set_property_str obj k j ≡ some obj'
      → own obj' q ≡ (if str_eq q k then some j else own obj q)
  pub own_names :
      (obj : O)
      → (ns : List Bytes) × (host.own_property_names obj ≡ some ns)
        × ((q : Bytes) → (is_key q ns ≡ true) ↔ ((j : J) × (own obj q ≡ some j)))
  pub get-own :
      (obj : O) (q : Bytes) (j : J) → own obj q ≡ some j → host.get_property obj q ≡ some j
  pub atom_text : (a : Bytes) → host.atom_to_c_string a ≡ some a

pub str_eq_refl : (s : Bytes) → str_eq s s ≡ true
str_eq_refl s = (str_eq_iff s s).1 refl

pub lookup-insert :
    {V : Type 0} (k n : Bytes) (v : V) (m : List (Bytes × V))
    → lookup k (insert str_eq n v m) ≡ (if str_eq k n then some v else lookup k m)
unfolding lookup insert
lookup-insert k n v [] = refl
lookup-insert k n v (e ∷ m) = elim (Bool-cases (str_eq n e.0)) [
  | inl same ↦ rw (same, (str_eq_iff n e.0).0 same) (ground arith)
  | inr other ↦
      rw (other, lookup-insert k n v m)
        (ground (arith, str_eq_iff k e.0, str_eq_iff k n, str_eq_iff n e.0))
]
