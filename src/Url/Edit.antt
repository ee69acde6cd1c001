-- ===== src/Url/Edit.antt =====
-- What an edit of the URL's own search parameters does to both objects.
use breeze_js.Prelude.{ℕ, ◌≡◌, refl, ap, ◌∙◌, List, [], ◌∷◌, ◌++◌, some, ==-refl, All, append_assoc}
use breeze_js.Bytes.{Bytes}
use breeze_js.Percent.{percent_encode}
use breeze_js.Percent.RoundTrip.{IsEncoded, percent_encode-IsEncoded, IsEncoded-ne_separator}
use breeze_js.Query.{Pair, parse_query_string, to_string}
use breeze_js.Query.RoundTrip.{IsBytePair, parse_query_string-to_string}
use breeze_js.Url.{Store, set_url, set_list, refresh, strip, set_search, update_url_query}
use breeze_js.Url.Sync.{update_some, set_list-url_object}

-- No '?' stands in front of a text form, so set_search takes all of it.
strip-append : (s t : Bytes) → All IsEncoded s → strip b'?' (s ++ (b'=' ∷ t)) ≡ s ++ (b'=' ∷ t)
unfolding strip
strip-append [] t h = refl
strip-append (c ∷ s) t h = rw ((IsEncoded-ne_separator c h.0).2)

strip-to_string : (ps : List Pair) → All IsBytePair ps → strip b'?' (to_string ps) ≡ to_string ps
unfolding to_string
strip-to_string [] h = unfold strip in refl
strip-to_string (p ∷ []) h =
    strip-append (percent_encode p.0) (percent_encode p.1) (percent_encode-IsEncoded p.0 h.0.0)
strip-to_string (p ∷ q ∷ ps) h =
    rw append_assoc (strip-append (percent_encode p.0) _ (percent_encode-IsEncoded p.0 h.0.0))

set_search_lem :
    (u : ℕ) (s : Bytes) (m : Store)
    → set_search u s m
      ≡ set_url
          (set_list m (m.url u).search_params (parse_query_string (strip b'?' s)))
          u
          (refresh (record (m.url u) { search = strip b'?' s }))
unfolding set_search parse_query_string strip
set_search_lem u [] m = refl
set_search_lem u (c ∷ cs) m = refl

set_list-list : (p : ℕ) (l : List Pair) (m : Store) → ((set_list m p l).params p).list ≡ l
set_list-list p l m = rw (==-refl p)

-- An edit of the parameters at `p` to the list `l` of byte strings, through the URL that they are
-- linked to: its own parameters, which may be others, take the list over.
module _ (u p : ℕ) (l : List Pair) (m : Store) (link : (m.params p).url_object ≡ some u)
    (b : All IsBytePair l) where
  unfoldable pub edited : Store
  edited = update_url_query p (set_list m p l)

  edited_lem :
      edited
      ≡ set_url
          (set_list (set_list m p l) (m.url u).search_params l)
          u
          (refresh (record (m.url u) { search = to_string l }))
  unfolding edited
  edited_lem =
      let x = m.url u in
      let n = set_list m p l in
      let written : Bytes → List Pair → Store =
        λ s ps. set_url (set_list n x.search_params ps) u (refresh (record x { search = s })) in
      update_some p u n (set_list-url_object p l m ∙ link)
      ∙ ap (λ ps. set_search u (to_string ps) n) (set_list-list p l m)
      ∙ set_search_lem u (to_string l) n
      ∙ ap (λ s. written s (parse_query_string s)) (strip-to_string l b)
      ∙ ap (written (to_string l)) (parse_query_string-to_string l b)

  pub edited-list : (edited.params (m.url u).search_params).list ≡ l
  edited-list = rw edited_lem (rw (==-refl (m.url u).search_params))

  pub edited-url : edited.url u ≡ refresh (record (m.url u) { search = to_string l })
  edited-url = rw edited_lem (rw (==-refl u))
