-- ===== src/Url/Setters.antt =====
-- The getters and setters of `URL` that touch no other object.
use breeze_js.Prelude.{
  ℕ, Bool, false, not, ◌&&◌, ◌||◌, [], ◌∷◌, ◌++◌, Option, none, some, ◌==◌, if◌then◌else◌, is_empty,
  take, drop, suc,
}
use breeze_js.Bytes.{Bytes, codes, str_eq, find}
use breeze_js.Url.{Url, marked, refresh, serialize_url, strip}

abbrev pub get_href : Url → Bytes
get_href = serialize_url

abbrev pub to_json : Url → Bytes
to_json = serialize_url

unfoldable pub origin : Url → Bytes
origin u =
    if is_empty u.protocol || is_empty u.host then [] else u.protocol ++ (codes "//" ++ u.host)

unfoldable pub last : ℕ → Bytes → ℕ
last c [] = c
last c (x ∷ xs) = last x xs

-- `value.back()` of an empty string is undefined behaviour: none.
unfoldable pub set_protocol : Bytes → Url → Option Url
unfolding last
set_protocol [] u = none
set_protocol (c ∷ cs) u =
    let value = if last c cs == b':' then c ∷ cs else (c ∷ cs) ++ codes ":" in
    some (refresh (record u { protocol = value }))

-- The guard of `set_username`, `set_password` and `set_port`.
unfoldable pub cannot_have_credentials : Url → Bool
cannot_have_credentials u =
    str_eq u.protocol (codes "file:")
    || str_eq u.protocol (codes "data:")
    || str_eq u.protocol (codes "about:")

-- The guard of `set_host`, `set_hostname` and `set_pathname`.
unfoldable pub has_opaque_path : Url → Bool
unfolding find
has_opaque_path u = elim (find b':' u.pathname) [
  | none ↦ false
  | some _ ↦ not (str_eq u.protocol (codes "http:")) && not (str_eq u.protocol (codes "https:"))
]

unfoldable pub set_username : Bytes → Url → Url
set_username new u = if cannot_have_credentials u then u else refresh (record u { username = new })

unfoldable pub set_password : Bytes → Url → Url
set_password new u = if cannot_have_credentials u then u else refresh (record u { password = new })

unfoldable pub get_host : Url → Bytes
get_host u =
    if is_empty u.host
    then []
    else if is_empty u.port
    then u.host
    else u.host ++ (codes ":" ++ u.port)

-- A host with no colon leaves the port as it was.
unfoldable pub split_host : Bytes → Url → Url
unfolding find
split_host new u = elim (find b':' new) [
  | some i ↦ record u { host = take i new; port = drop (suc i) new }
  | none ↦ record u { host = new }
]

unfoldable pub set_host : Bytes → Url → Url
set_host new u = if has_opaque_path u then u else refresh (split_host new u)

abbrev pub get_hostname : Url → Bytes
get_hostname u = if is_empty u.host then [] else u.host

unfoldable pub set_hostname : Bytes → Url → Url
set_hostname new u = if has_opaque_path u then u else refresh (record u { host = new })

-- Both branches of the code's test on `new_port.empty()` store it.
unfoldable pub set_port : Bytes → Url → Url
set_port new u =
    if cannot_have_credentials u
    then u
    else if is_empty new
    then refresh (record u { port = [] })
    else refresh (record u { port = new })

unfoldable pub set_pathname : Bytes → Url → Url
set_pathname new u = if has_opaque_path u then u else refresh (record u { pathname = new })

abbrev pub get_search : Url → Bytes
get_search u = marked (codes "?") u.search

abbrev pub get_hash : Url → Bytes
get_hash u = marked (codes "#") u.hash

unfoldable pub set_hash : Bytes → Url → Url
set_hash [] u = refresh (record u { hash = [] })
set_hash (c ∷ cs) u = refresh (record u { hash = strip b'#' (c ∷ cs) })
