-- ===== src/Url/Parser.antt =====
-- `URL::$basic_url_parser`, the constructor, `parse`, `canParse` and `set_href`.
--
-- The regular expression is matched by ctre, which is not part of this repository: the matcher is
-- an argument `match`, from a string to the captures 1 to 8, empty where a group took no part.
-- `IsMatch` is what the pattern says of a string and its captures.
use breeze_js.Prelude.{
  ℕ, ◌≡◌, Bool, true, false, ◌||◌, [], ◌++◌, Option, none, some, ◌==◌, if◌then◌else◌, is_empty, not,
  All,
}
use breeze_js.Prelude.Result.{Result, ok, throws}
use breeze_js.Bytes.{Bytes, codes, is_alnum, is_digit}
use breeze_js.Query.{parse_query_string}
use breeze_js.Url.{Store, set_url, set_list, set_link, update, refresh}
use breeze_js.Url.Params.{allocate}

pub record Captures : Type 0 where
  pub scheme : Bytes
  pub user : Bytes
  pub secret : Bytes
  pub host : Bytes
  pub port : Bytes
  pub path : Bytes
  pub query : Bytes
  pub fragment : Bytes

-- A group that may be missing, with the mark that stands in front of it.
abbrev pub optional : Bytes → Option Bytes → Bytes
optional mark none = []
optional mark (some g) = mark ++ g

abbrev pub captured : Option Bytes → Bytes
captured none = []
captured (some g) = g

abbrev pub Nonempty : Bytes → Type 0
Nonempty s = is_empty s ≡ false

abbrev pub AllIn : (ℕ → Bool) → Bytes → Type 0
AllIn test = All (λ c. test c ≡ true)

-- `\w` and `\d`.
abbrev pub is_word : ℕ → Bool
is_word c = is_alnum c || c == b'_'

abbrev pub WhenSome : (Bytes → Type 0) → Option Bytes → Type 0
WhenSome P none = Unit
WhenSome P (some s) = P s

-- `(?:(\w+):)?//(?:(\w+)(?::(\w+))?@)?([^:/?#]+)(?::(\d+))?([^?#]*)(?:\?([^#]*))?(?:#(.*))?`
-- The groups that may be missing, and the text that they make up; a password needs a user name.
pub record Groups : Type 0 where
  pub scheme : Option Bytes
  pub credentials : Option (Bytes × Option Bytes)
  pub host : Bytes
  pub port : Option Bytes
  pub path : Bytes
  pub query : Option Bytes
  pub fragment : Option Bytes

abbrev pub scheme_text : Option Bytes → Bytes
scheme_text none = []
scheme_text (some s) = s ++ codes ":"

abbrev pub credentials_text : Option (Bytes × Option Bytes) → Bytes
credentials_text none = []
credentials_text (some (user, secret)) = user ++ (optional (codes ":") secret ++ codes "@")

abbrev pub text : Groups → Bytes
text g =
    scheme_text g.scheme
    ++ (codes "//"
        ++ (credentials_text g.credentials
            ++ (g.host
                ++ (optional (codes ":") g.port
                    ++ (g.path
                        ++ (optional (codes "?") g.query ++ optional (codes "#") g.fragment))))))

abbrev pub user_of : Option (Bytes × Option Bytes) → Bytes
user_of none = []
user_of (some (user, secret)) = user

abbrev pub secret_of : Option (Bytes × Option Bytes) → Bytes
secret_of none = []
secret_of (some (user, secret)) = captured secret

abbrev pub captures : Groups → Captures
captures g = record {
  scheme = captured g.scheme;
  user = user_of g.credentials;
  secret = secret_of g.credentials;
  host = g.host;
  port = captured g.port;
  path = g.path;
  query = captured g.query;
  fragment = captured g.fragment;
}

abbrev pub CredentialsIn : Option (Bytes × Option Bytes) → Type 0
CredentialsIn none = Unit
CredentialsIn (some (user, secret)) =
    Nonempty user × AllIn is_word user × WhenSome (λ s. Nonempty s × AllIn is_word s) secret

-- What each group of the pattern accepts.
pub record InPattern (g : Groups) : Type 0 where
  pub scheme_in : WhenSome (λ s. Nonempty s × AllIn is_word s) g.scheme
  pub credentials_in : CredentialsIn g.credentials
  pub host_nonempty : Nonempty g.host
  pub host_in : AllIn (λ c. not (c == b':' || c == b'/' || c == b'?' || c == b'#')) g.host
  pub port_in : WhenSome (λ s. Nonempty s × AllIn is_digit s) g.port
  pub path_in : AllIn (λ c. not (c == b'?' || c == b'#')) g.path
  pub query_in : WhenSome (AllIn (λ c. not (c == b'#'))) g.query

-- The pattern matches the whole string `s` with the captures `c`.
abbrev pub IsMatch : Bytes → Captures → Type 0
IsMatch s c = (g : Groups) × InPattern g × (s ≡ text g) × (c ≡ captures g)

-- The assignments of $basic_url_parser behind a match: new search parameters take the place of
-- the old ones and point at this URL.
unfoldable pub assign : ℕ → Captures → Store → Store
unfolding allocate
assign u c m =
    let (p, m') = allocate (parse_query_string c.query) m in
    let linked = record m' {
      params =
          update m'.params p (record { list = parse_query_string c.query; url_object = some u });
    } in
    set_url linked u (
      refresh (record {
        href = [];
        protocol = c.scheme ++ codes ":";
        username = c.user;
        password = c.secret;
        host = c.host;
        port = c.port;
        pathname = c.path;
        search = c.query;
        hash = c.fragment;
        search_params = p;
      }))

-- `catch (...) { return nullptr; }`
abbrev pub or_null : Result Store → Option Store
or_null (ok m) = some m
or_null (throws e) = none

-- The end of set_href: the list of the parameters is emptied, and filled again from the query.
unfoldable pub refill : ℕ → Store → Store
refill u m =
    let x = m.url u in
    let cleared = set_list m x.search_params [] in
    if not (is_empty x.search)
    then set_list cleared x.search_params (parse_query_string x.search)
    else cleared

module _ (match : Bytes → Option Captures) where
  -- $basic_url_parser; with no match nothing changes.
  unfoldable pub basic_url_parser : ℕ → Bytes → Store → Bool × Store
  unfolding assign
  basic_url_parser u s m = elim (match s) [ none ↦ (false, m) | some c ↦ (true, assign u c m) ]

  -- URL::URL(url_string), for the object at `u`; the parser has set the link to this URL already.
  unfoldable pub construct : ℕ → Bytes → Store → Result Store
  unfolding basic_url_parser
  construct u s m =
      let (parsed, m') = basic_url_parser u s m in
      let p = (m'.url u).search_params in
      if not parsed then throws (codes "Failed to parse URL") else ok (set_link m' p u)

  -- URL::parse: `nullptr` on any exception.
  unfoldable pub parse : ℕ → Bytes → Store → Option Store
  unfolding construct
  parse u s m = or_null (construct u s m)

  -- URL::canParse: constructs `URL temp("")` first; both objects live at `u`, the local one.
  unfoldable pub can_parse : ℕ → Bytes → Store → Result Bool
  unfolding construct
  can_parse u s m = elim (construct u [] m) [
    | throws e ↦ throws e
    | ok m' ↦ ok (basic_url_parser u s m').0
  ]

  -- URL::set_href
  unfoldable pub set_href : ℕ → Bytes → Store → Result Store
  unfolding basic_url_parser
  set_href u s m =
      let (parsed, m') = basic_url_parser u s m in
      if not parsed then throws (codes "Invalid URL") else ok (refill u m')
