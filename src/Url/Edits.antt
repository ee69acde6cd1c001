-- ===== src/Url/Edits.antt =====
-- `append`, `remove` and `set` on the search parameters of a URL: what they do to both objects.
use breeze_js.Prelude.{
  ℕ, ◌≡◌, ap, sym, subst, ◌∙◌, ◌≢◌, some, List, [], ◌∷◌, ◌++◌, remove_if, All, All-append,
  All-remove_if, append-nil,
}
use breeze_js.Bytes.{Bytes, IsBytes}
use breeze_js.Query.{Pair, to_string}
use breeze_js.Query.RoundTrip.{IsBytePair}
use breeze_js.Url.{Url, Store, refresh, serialize_url}
use breeze_js.Url.Params.{is_match, append, remove, get_all, set}
use breeze_js.Url.Params.Lists.{
  get_all_self, get_all_miss, get_all-append, get_all-remove_self, get_all-remove_other,
}
use breeze_js.Url.Sync.{IsSynced, remove-IsSynced}
use breeze_js.Url.Edit.{edited, edited-list, edited-url}

-- The list that the URL at `u` holds through its search parameters.
abbrev pub own_list : ℕ → Store → List Pair
own_list u m = (m.params (m.url u).search_params).list

module _ (u : ℕ) (name value : Bytes) (m : Store) where
  -- For a URL in step with its search parameters, and pairs that are bytes: `append` puts the new
  -- pair at the end of the list, and sets the query of the URL to the text form of that list and
  -- its href to match; all else of the URL is as before.
  pub append_lem :
      IsSynced u m
      → All IsBytePair (own_list u m)
      → IsBytes name
      → IsBytes value
      → let n = append (m.url u).search_params name value m in
        let l = own_list u m ++ (name, value) ∷ [] in
        ((n.params (m.url u).search_params).list ≡ l)
        × (n.url u ≡ refresh (record (m.url u) { search = to_string l }))
  unfolding append edited
  append_lem h b bn bv =
      let l = own_list u m ++ (name, value) ∷ [] in
      let bl = All-append IsBytePair (own_list u m) ((name, value) ∷ []) b ((bn, bv), tt) in
      (
        edited-list u (m.url u).search_params l m h.links.linked bl,
        edited-url u (m.url u).search_params l m h.links.linked bl,
      )

  remove_lem :
      IsSynced u m
      → All IsBytePair (own_list u m)
      → let n = remove (m.url u).search_params name value m in
        let l = remove_if (is_match name value) (own_list u m) in
        ((n.params (m.url u).search_params).list ≡ l)
        × (n.url u ≡ refresh (record (m.url u) { search = to_string l }))
  unfolding remove edited
  remove_lem h b =
      let l = remove_if (is_match name value) (own_list u m) in
      let bl = All-remove_if IsBytePair (is_match name value) (own_list u m) b in
      (
        edited-list u (m.url u).search_params l m h.links.linked bl,
        edited-url u (m.url u).search_params l m h.links.linked bl,
      )

-- `append_lem` where the parts of the state before it are known.
append_at :
    (u : ℕ) (name value : Bytes) (m : Store) (p : ℕ) (x : Url) (l : List Pair)
    → IsSynced u m
    → p ≡ (m.url u).search_params
    → x ≡ m.url u
    → l ≡ own_list u m
    → All IsBytePair l
    → IsBytes name
    → IsBytes value
    → let n = append p name value m in
      ((n.params p).list ≡ l ++ (name, value) ∷ [])
      × (n.url u ≡ refresh (record x { search = to_string (l ++ (name, value) ∷ []) }))
append_at u name value m p x l h ep ex el b bn bv =
    rw (ep, ex, el) (append_lem u name value m h (subst (All IsBytePair) el b) bn bv)

-- `set` leaves the name with the one value, behind the pairs of the other names, and carries the
-- list to the query and the href of the URL.
pub set_lem :
    (u : ℕ) (name value : Bytes) (m : Store)
    → IsSynced u m
    → All IsBytePair (own_list u m)
    → IsBytes name
    → IsBytes value
    → let n = set (m.url u).search_params name value m in
      let l = remove_if (is_match name []) (own_list u m) ++ (name, value) ∷ [] in
      ((n.params (m.url u).search_params).list ≡ l)
      × (n.url u ≡ refresh (record (m.url u) { search = to_string l }))
unfolding set serialize_url
set_lem u name value m h b bn bv =
    let p = (m.url u).search_params in
    let m1 = remove p name [] m in
    let l = remove_if (is_match name []) (own_list u m) in
    let (rl, ru) = remove_lem u name [] m h b in
    let same : p ≡ (m1.url u).search_params = sym (ap (λ x. x.search_params) ru) in
    append_at u name value m1 p (refresh (record (m.url u) { search = to_string l })) l
      (remove-IsSynced u p name [] m h) same (sym ru) (sym rl ∙ ap (λ q. (m1.params q).list) same)
      (All-remove_if IsBytePair (is_match name []) (own_list u m) b) bn bv

-- For a URL in step with its search parameters, and pairs that are bytes: after `set`, getAll gives
-- the one value for the name, and for every other name the values it gave before.
pub set_queries :
    (u : ℕ) (name value : Bytes) (m : Store)
    → IsSynced u m
    → All IsBytePair (own_list u m)
    → IsBytes name
    → IsBytes value
    → let l = ((set (m.url u).search_params name value m).params (m.url u).search_params).list in
      (get_all l name ≡ value ∷ [])
      × ((other : Bytes) → other ≢ name → get_all l other ≡ get_all (own_list u m) other)
set_queries u name value m h b bn bv =
    let l = remove_if (is_match name []) (own_list u m) in
    let e = (set_lem u name value m h b bn bv).0 in
    (
      rw (e, get_all-append l ((name, value) ∷ []) name, get_all-remove_self name (own_list u m))
          (get_all_self name value),
      λ other ne. rw (
        e,
        get_all-append l ((name, value) ∷ []) other,
        get_all-remove_other name other (own_list u m) ne,
        get_all_miss name other value ne,
        append-nil,
      ),
    )

-- An append to any parameters object that is linked to a URL, also to one that set_href has
-- replaced, overwrites the list of the URL's own parameters and its query with the list of that
-- object and the new pair (of bytes), and what the URL held is lost.
pub append_stale :
    (u p : ℕ) (name value : Bytes) (m : Store)
    → (m.params p).url_object ≡ some u
    → All IsBytePair (m.params p).list
    → IsBytes name
    → IsBytes value
    → let l = (m.params p).list ++ (name, value) ∷ [] in
      (((append p name value m).params (m.url u).search_params).list ≡ l)
      × ((append p name value m).url u ≡ refresh (record (m.url u) { search = to_string l }))
unfolding append edited
append_stale u p name value m link b bn bv =
    let l = (m.params p).list ++ (name, value) ∷ [] in
    let bl = All-append IsBytePair (m.params p).list ((name, value) ∷ []) b ((bn, bv), tt) in
    (edited-list u p l m link bl, edited-url u p l m link bl)
