-- ===== src/Url/Calls/Synced.antt =====
-- A URL and its search parameters, over scripts of calls.
use breeze_js.Prelude.{ℕ, ◌≡◌, ◌⊎◌, List, [], ◌∷◌, Option, none, some, All}
use breeze_js.Prelude.Result.{ok}
use breeze_js.Bytes.{Bytes}
use breeze_js.Query.{Pair}
use breeze_js.Url.{Store}
use breeze_js.Url.Parser.{Captures, assign, construct}
use breeze_js.Url.Sync.{
  IsSynced, set_search-IsSynced, append-IsSynced, remove-IsSynced, set-IsSynced, sort-IsSynced,
}
use breeze_js.Url.Keeps.{
  set_url-IsSynced, set_username-Keeps, set_password-Keeps, set_host-Keeps, set_hostname-Keeps,
  set_port-Keeps, set_pathname-Keeps, set_hash-Keeps, set_protocol-Keeps,
}
use breeze_js.Url.Parsed.{assign-IsSynced, refill-IsSynced, construct-IsSynced}
use breeze_js.Url.Calls.{Call, calls, IsKept, calls_keep}

abbrev May : Call → Type 0
May c = Unit

All-May : (cs : List Call) → All May cs
All-May [] = tt
All-May (c ∷ cs) = (tt, All-May cs)

-- Every call that gives a store keeps the URL and its parameters in step.
IsSynced-IsKept :
    (match : Bytes → Option Captures) (std_sort : List Pair → List Pair) (u : ℕ)
    → IsKept match std_sort u May (IsSynced u)
IsSynced-IsKept match std_sort u = record {
  keeps_href =
      λ s c m may hit h. refill-IsSynced u (assign u c m) (assign-IsSynced u c m h.links.owned);
  keeps_protocol =
      λ s x m may defined h. set_url-IsSynced u x m (set_protocol-Keeps s (m.url u) x defined) h;
  keeps_username = λ s m may h. set_url-IsSynced u _ m (set_username-Keeps s (m.url u) h.printed) h;
  keeps_password = λ s m may h. set_url-IsSynced u _ m (set_password-Keeps s (m.url u) h.printed) h;
  keeps_host = λ s m may h. set_url-IsSynced u _ m (set_host-Keeps s (m.url u) h.printed) h;
  keeps_hostname = λ s m may h. set_url-IsSynced u _ m (set_hostname-Keeps s (m.url u) h.printed) h;
  keeps_port = λ s m may h. set_url-IsSynced u _ m (set_port-Keeps s (m.url u) h.printed) h;
  keeps_pathname = λ s m may h. set_url-IsSynced u _ m (set_pathname-Keeps s (m.url u) h.printed) h;
  keeps_search = λ s m may h. set_search-IsSynced u s m h.links;
  keeps_hash = λ s m may h. set_url-IsSynced u _ m (set_hash-Keeps s (m.url u)) h;
  keeps_append = λ p name value m may h. append-IsSynced u p name value m h;
  keeps_remove = λ p name value m may h. remove-IsSynced u p name value m h;
  keeps_set = λ p name value m may h. set-IsSynced u p name value m h;
  keeps_sort = λ p m may h. sort-IsSynced std_sort u p m h;
}

-- If no parameters object belongs to another URL, then a URL that the constructor returned is in
-- step with its search parameters after any script of calls on it and on parameters objects, those
-- that set_href replaced among them, that went through: the list is the parsed query, its link
-- leads back to the URL, and the stored href is the serialized URL.
pub calls-construct-IsSynced :
    (match : Bytes → Option Captures) (std_sort : List Pair → List Pair) (u : ℕ) (s : Bytes)
    (cs : List Call) (m m' m'' : Store)
    → ((p : ℕ) → ((m.params p).url_object ≡ none) ⊎ ((m.params p).url_object ≡ some u))
    → construct match u s m ≡ ok m'
    → calls match std_sort u cs m' ≡ some m''
    → IsSynced u m''
calls-construct-IsSynced match std_sort u s cs m m' m'' owned made ran =
    calls_keep match std_sort u (IsSynced-IsKept match std_sort u) cs m' m'' (All-May cs)
      (construct-IsSynced match u s m m' owned made) ran
