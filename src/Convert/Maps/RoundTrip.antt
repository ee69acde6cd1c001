-- ===== src/Convert/Maps/RoundTrip.antt =====
-- `unwrap` after `wrap`.
use breeze_js.Prelude.{
  ◌≡◌, refl, sym, ap, ◌∙◌, inl, inr, true, List, [], ◌∷◌, Option, none, some, if◌then◌else◌,
  Bool-cases, Option-cases, arith, All,
}
use breeze_js.Bytes.{Bytes, str_eq, str_eq_iff}
use breeze_js.Convert.{unwrapped, Traits, Host, c_string, insert, lookup}
use breeze_js.Convert.Maps.{wrap_map, unwrap_names, unwrap_map}
use breeze_js.Convert.Plain.{
  IsText, c_string_lem, IsMap, is_key, IsPlain, str_eq_refl, lookup-insert,
}
use breeze_js.Convert.Maps.Wrapped.{
  IsName, stored, wrap_entries-own, wrap_entries-wraps, lookup-IsText, wrap_map-entries,
}

-- One name more is read.
read_one :
    {V : Type 0} (f : Bytes → Option V) (k n : Bytes) (v : V) (ns : List Bytes)
    (m : List (Bytes × V))
    → f n ≡ some v
    → (if is_key k ns then f k else lookup k (insert str_eq n v m))
      ≡ (if is_key k (n ∷ ns) then f k else lookup k m)
read_one f k n v ns m fn = rw (lookup-insert k n v m) (elim (Bool-cases (str_eq k n)) [
  | inl same ↦
      let fk : f k ≡ some v = rw ((str_eq_iff k n).0 same) fn in rw same (ground (arith, fk))
  | inr other ↦ rw other refl
])

module _ {J O V : Type 0} (host : Host J O) (traits : Traits J V) (Settable : Bytes → Type 0)
    (own : O → Bytes → Option J) (plain : IsPlain host Settable own) where
  -- What `unwrap` reads under the names of an object that holds `f`.
  abbrev Holds : (Bytes → Option V) → O → Bytes → Type 0
  Holds f obj q =
      (j : J) × (v : V) × IsText q
      × (own obj q ≡ some j)
      × (traits.unwrap j ≡ unwrapped v)
      × (f q ≡ some v)

  unwrap_names-lookup :
      (f : Bytes → Option V) (obj : O) (ns : List Bytes) (result : List (Bytes × V))
      → ((q : Bytes) → is_key q ns ≡ true → Holds f obj q)
      → (m : List (Bytes × V)) × ((unwrap_names host traits obj ns result).1 ≡ unwrapped m)
        × ((k : Bytes) → lookup k m ≡ (if is_key k ns then f k else lookup k result))
  unfolding unwrap_names
  unwrap_names-lookup f obj [] result h = (result, refl, λ k. refl)
  unwrap_names-lookup f obj (n ∷ ns) result h =
      let (j, v, t, o, g, fn) = h n (rw (str_eq_refl n) refl) in
      let (m, done, found) =
        unwrap_names-lookup f obj ns (insert str_eq (c_string n) v result)
          (λ q k. h q (ground (arith, k))) in
      (
        m,
        rw (unwrap_names, plain.atom_text n, plain.get-own obj n j o, g) done,
        λ k. found k ∙ rw (c_string_lem n t) (read_one f k n v ns result fn),
      )

  module _ (map : List (Bytes × V)) (obj : O)
      (back : (v : V) (j : J) → traits.wrap v ≡ some j → traits.unwrap j ≡ unwrapped v)
      (distinct : IsMap map) (named : All (IsName Settable) map)
      (done : (wrap_map host traits map).1 ≡ some obj) where
    wrap_map-own : (q : Bytes) → own obj q ≡ stored traits (lookup q map) none
    wrap_map-own q =
        let (obj0, new, made) = wrap_map-entries host traits Settable own plain map obj done in
        wrap_entries-own host traits Settable own plain q map obj0 obj distinct named made
        ∙ ap (stored traits (lookup q map)) (plain.own-new obj0 q new)

    wrap_map-Holds : (q : Bytes) (j : J) → own obj q ≡ some j → Holds (λ k. lookup k map) obj q
    wrap_map-Holds q j o = elim (Option-cases (lookup q map)) [
      | inl none_there ↦ cc (sym o ∙ wrap_map-own q ∙ ap (λ f. stored traits f none) none_there)
      | inr (v, found) ↦
          let wrapped = sym (ap (λ f. stored traits f none) found) ∙ sym (wrap_map-own q) ∙ o in
          (j, v, lookup-IsText Settable q v map named found, o, back v j wrapped, found)
    ]

    wrap_map-found : (q : Bytes) (v : V) → lookup q map ≡ some v → (j : J) × (own obj q ≡ some j)
    wrap_map-found q v found =
        let (obj0, new, made) = wrap_map-entries host traits Settable own plain map obj done in
        let (j, wrapped) =
          wrap_entries-wraps host traits Settable own plain q v map obj0 obj made found in
        (j, wrap_map-own q ∙ ap (λ f. stored traits f none) found ∙ wrapped)

    -- On plain objects, and with values that `unwrap` reads back: if `wrap` makes an object of a map
    -- whose keys hold no NUL and can be set, then `unwrap` of that object gives a map with the same
    -- value under every key, and none under any other.
    pub unwrap_map-wrap_map :
        (js_obj : J)
        → host.as_object js_obj ≡ some obj
        → (m : List (Bytes × V)) × ((unwrap_map host traits js_obj).1 ≡ unwrapped m)
          × ((k : Bytes) → lookup k m ≡ lookup k map)
    unfolding unwrap_map lookup
    unwrap_map-wrap_map js_obj is_obj =
        let (ns, listed, keys) = plain.own_names obj in
        let (m, read, found) =
          unwrap_names-lookup (λ k. lookup k map) obj ns []
            (λ q k. let (j, o) = (keys q).0 k in wrap_map-Holds q j o) in
        (
          m,
          rw (unwrap_map, is_obj, listed) read,
          λ k. found k ∙ elim (Bool-cases (is_key k ns)) [
            | inl there ↦ rw there refl
            | inr missing ↦ rw missing (elim (Option-cases (lookup k map)) [
              | inl gone ↦ sym gone
              | inr (v, e) ↦ cc (sym missing ∙ (keys k).1 (wrap_map-found k v e))
            ])
          ],
        )
