-- ===== src/Url/Sync.antt =====
-- How a URL and its search parameters follow one another: the pairs, the query text and the href.
use breeze_js.Prelude.{
  ℕ, ◌≡◌, refl, ap, ◌∙◌, ◌⊎◌, inl, inr, ◌≢◌, List, [], ◌∷◌, ◌++◌, none, some, arith, ==-refl,
  remove_if,
}
use breeze_js.Bytes.{Bytes}
use breeze_js.Query.{Pair, parse_query_string, to_string}
use breeze_js.Url.{Url, Store, set_url, set_list, serialize_url, set_search, update_url_query}
use breeze_js.Url.Params.{is_match, append, remove, set, sort}

-- The store of one URL, at `u`: every parameters object belongs to it or to none, and its own one
-- does.
pub record IsLinked (u : ℕ) (m : Store) : Type 0 where
  pub linked : (m.params (m.url u).search_params).url_object ≡ some u
  pub owned : (p : ℕ) → ((m.params p).url_object ≡ none) ⊎ ((m.params p).url_object ≡ some u)

pub record IsSynced (u : ℕ) (m : Store) : Type 0 where
  pub links : IsLinked u m
  pub listed : (m.params (m.url u).search_params).list ≡ parse_query_string (m.url u).search
  pub printed : (m.url u).href ≡ serialize_url (m.url u)

pub set_list-IsLinked :
    (u p : ℕ) (l : List Pair) (m : Store) → IsLinked u m → IsLinked u (set_list m p l)
set_list-IsLinked u p l m h = record {
  linked = ground (arith, h.linked);
  owned = λ q. ground (arith, h.owned q, h.owned p);
}

pub set_url-IsLinked :
    (u : ℕ) (x : Url) (m : Store)
    → x.search_params ≡ (m.url u).search_params
    → IsLinked u m
    → IsLinked u (set_url m u x)
set_url-IsLinked u x m e h = record { linked = rw (==-refl u, e) h.linked; owned = h.owned }

-- Whatever the parameters held before: set_search writes them anew.
pub set_search-IsSynced :
    (u : ℕ) (s : Bytes) (m : Store) → IsLinked u m → IsSynced u (set_search u s m)
unfolding set_search serialize_url parse_query_string
set_search-IsSynced u [] m h = record {
  links =
      set_url-IsLinked u _ (set_list m (m.url u).search_params []) refl
        (set_list-IsLinked u (m.url u).search_params [] m h);
  listed = rw (==-refl u) (rw (==-refl (m.url u).search_params));
  printed = rw (==-refl u);
}
set_search-IsSynced u (c ∷ cs) m h = record {
  links =
      set_url-IsLinked u _ (set_list m (m.url u).search_params _) refl
        (set_list-IsLinked u (m.url u).search_params _ m h);
  listed = rw (==-refl u) (rw (==-refl (m.url u).search_params));
  printed = rw (==-refl u);
}

update_none : (p : ℕ) (m : Store) → (m.params p).url_object ≡ none → update_url_query p m ≡ m
unfolding update_url_query
update_none p m e = rw (e, update_url_query)

pub update_some :
    (p u : ℕ) (m : Store)
    → (m.params p).url_object ≡ some u
    → update_url_query p m ≡ set_search u (to_string (m.params p).list) m
unfolding update_url_query
update_some p u m e = rw (e, update_url_query)

pub set_list-url_object :
    (p : ℕ) (l : List Pair) (m : Store)
    → ((set_list m p l).params p).url_object ≡ (m.params p).url_object
set_list-url_object p l m = rw (==-refl p)

set_list-other :
    (p q : ℕ) (l : List Pair) (m : Store) → p ≢ q → (set_list m p l).params q ≡ m.params q
set_list-other p q l m ne = ground arith

-- The parameters were edited, and $update_url_query carries the edit to the URL. The parameters may
-- be the URL's own ones, those that it had before a set_href, or belong to no URL.
edit-IsSynced :
    (u p : ℕ) (l : List Pair) (m : Store)
    → IsSynced u m
    → IsSynced u (update_url_query p (set_list m p l))
edit-IsSynced u p l m h = elim (h.links.owned p) [
  | inl e ↦
      let other : p ≢ (m.url u).search_params =
        λ q. cc (e, h.links.linked, ap (λ k. (m.params k).url_object) q) in
      rw (update_none p (set_list m p l) (set_list-url_object p l m ∙ e)) (record {
        links = set_list-IsLinked u p l m h.links;
        listed = rw (set_list-other p (m.url u).search_params l m other) h.listed;
        printed = h.printed;
      })
  | inr e ↦
      rw (update_some p u (set_list m p l) (set_list-url_object p l m ∙ e))
        (set_search-IsSynced u _ (set_list m p l) (set_list-IsLinked u p l m h.links))
]

pub append-IsSynced :
    (u p : ℕ) (name value : Bytes) (m : Store) → IsSynced u m → IsSynced u (append p name value m)
unfolding append
append-IsSynced u p name value m h = edit-IsSynced u p ((m.params p).list ++ (name, value) ∷ []) m h

pub remove-IsSynced :
    (u p : ℕ) (name value : Bytes) (m : Store) → IsSynced u m → IsSynced u (remove p name value m)
unfolding remove
remove-IsSynced u p name value m h =
    edit-IsSynced u p (remove_if (is_match name value) (m.params p).list) m h

pub set-IsSynced :
    (u p : ℕ) (name value : Bytes) (m : Store) → IsSynced u m → IsSynced u (set p name value m)
unfolding set
set-IsSynced u p name value m h =
    append-IsSynced u p name value (remove p name [] m) (remove-IsSynced u p name [] m h)

pub sort-IsSynced :
    (std_sort : List Pair → List Pair) (u p : ℕ) (m : Store)
    → IsSynced u m
    → IsSynced u (sort std_sort p m)
unfolding sort
sort-IsSynced std_sort u p m h = edit-IsSynced u p (std_sort (m.params p).list) m h
