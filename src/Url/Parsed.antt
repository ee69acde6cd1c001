-- ===== src/Url/Parsed.antt =====
-- What the constructor and set_href leave: a URL in step with its search parameters.
use breeze_js.Prelude.{
  ℕ, ◌≡◌, refl, sym, ◌∙◌, ◌⊎◌, inl, inr, List, [], Option, none, subst, nil_of_is_empty, some,
  arith, ==-refl, Bool-cases, Option-cases, is_empty,
}
use breeze_js.Prelude.Result.{ok, throws, ok_injective}
use breeze_js.Bytes.{Bytes, codes}
use breeze_js.Query.{Pair, parse_query_string}
use breeze_js.Url.{Store, set_list, set_link, serialize_url}
use breeze_js.Url.Params.{allocate}
use breeze_js.Url.Parser.{Captures, assign, basic_url_parser, construct, refill, set_href}
use breeze_js.Url.Sync.{IsLinked, IsSynced, set_list-IsLinked}

-- What the constructor leaves, and set_href: new parameters, linked to the URL, the old ones kept.
pub assign-IsSynced :
    (u : ℕ) (c : Captures) (m : Store)
    → ((p : ℕ) → ((m.params p).url_object ≡ none) ⊎ ((m.params p).url_object ≡ some u))
    → IsSynced u (assign u c m)
unfolding assign allocate serialize_url
assign-IsSynced u c m owned = record {
  links = record {
    linked = rw (==-refl u) (rw (==-refl m.next_params));
    owned = λ p. ground (arith, owned p);
  };
  listed = rw (==-refl u) (rw (==-refl m.next_params));
  printed = rw (==-refl u);
}

own_list-IsSynced :
    (u : ℕ) (l : List Pair) (m : Store)
    → IsLinked u m
    → l ≡ parse_query_string (m.url u).search
    → (m.url u).href ≡ serialize_url (m.url u)
    → IsSynced u (set_list m (m.url u).search_params l)
own_list-IsSynced u l m h e r = record {
  links = set_list-IsLinked u (m.url u).search_params l m h;
  listed = rw (==-refl (m.url u).search_params) e;
  printed = r;
}

pub refill-IsSynced : (u : ℕ) (m : Store) → IsSynced u m → IsSynced u (refill u m)
unfolding refill
refill-IsSynced u m h = elim (Bool-cases (is_empty (m.url u).search)) [
  | inl empty ↦
      let e : [] ≡ parse_query_string (m.url u).search =
        rw (nil_of_is_empty (m.url u).search empty) (unfold parse_query_string in refl) in
      rw empty (own_list-IsSynced u [] m h.links e h.printed)
  | inr full ↦ rw full (
      own_list-IsSynced u (parse_query_string (m.url u).search)
        (set_list m (m.url u).search_params [])
        (set_list-IsLinked u (m.url u).search_params [] m h.links) refl h.printed)
]

pub set_href-some :
    (match : Bytes → Option Captures) (u : ℕ) (s : Bytes) (c : Captures) (m : Store)
    → match s ≡ some c
    → set_href match u s m ≡ ok (refill u (assign u c m))
unfolding set_href
set_href-some match u s c m e = rw (e, basic_url_parser)

pub set_href-none :
    (match : Bytes → Option Captures) (u : ℕ) (s : Bytes) (m : Store)
    → match s ≡ none
    → set_href match u s m ≡ throws (codes "Invalid URL")
unfolding set_href
set_href-none match u s m e = rw (e, basic_url_parser)

pub construct-some :
    (match : Bytes → Option Captures) (u : ℕ) (s : Bytes) (c : Captures) (m : Store)
    → match s ≡ some c
    → construct match u s m ≡ ok (set_link (assign u c m) ((assign u c m).url u).search_params u)
unfolding construct
construct-some match u s c m e = rw (e, basic_url_parser)

pub construct-none :
    (match : Bytes → Option Captures) (u : ℕ) (s : Bytes) (m : Store)
    → match s ≡ none
    → construct match u s m ≡ throws (codes "Failed to parse URL")
unfolding construct
construct-none match u s m e = rw (e, basic_url_parser)

relink-IsSynced :
    (u : ℕ) (m : Store) → IsSynced u m → IsSynced u (set_link m (m.url u).search_params u)
relink-IsSynced u m h = record {
  links = record {
    linked = rw (==-refl (m.url u).search_params);
    owned = λ p. ground (arith, h.links.owned p);
  };
  listed = rw (==-refl (m.url u).search_params) h.listed;
  printed = h.printed;
}

pub construct-IsSynced :
    (match : Bytes → Option Captures) (u : ℕ) (s : Bytes) (m m' : Store)
    → ((p : ℕ) → ((m.params p).url_object ≡ none) ⊎ ((m.params p).url_object ≡ some u))
    → construct match u s m ≡ ok m'
    → IsSynced u m'
construct-IsSynced match u s m m' owned e = elim (Option-cases (match s)) [
  | inl miss ↦ cc (construct-none match u s m miss)
  | inr (c, hit) ↦
      subst (IsSynced u) (ok_injective (sym (construct-some match u s c m hit) ∙ e))
        (relink-IsSynced u (assign u c m) (assign-IsSynced u c m owned))
]
