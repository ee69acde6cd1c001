-- ===== src/Url.antt =====
-- `infra::URL` and `infra::URLSearchParams` of src/breeze-js/binding/std/infra.{h,cc}: the objects,
-- and the two functions through which they call one another.
--
-- A URL holds its search parameters by a shared pointer, and they point back at the URL; so both
-- live in a store, where an address stands for a pointer. The store never frees an object. What the
-- code keeps in `$name` is the field `name`.
pub mod Params
pub mod Setters
pub mod Parser
pub mod Sync
pub mod Keeps
pub mod Parsed
pub mod Calls
pub mod Edit
pub mod Edits
pub mod Canonical
mod Tests
use breeze_js.Prelude.{
  ℕ, suc, ◌+◌, Bool, true, false, not, ◌&&◌, ◌||◌, List, [], ◌∷◌, ◌++◌, Option, none, some, ◌==◌,
  if◌then◌else◌, is_empty,
}
use breeze_js.Bytes.{Bytes, codes}
use breeze_js.Query.{Pair, parse_query_string, to_string}

pub record Url : Type 0 where
  pub href : Bytes
  pub protocol : Bytes
  pub username : Bytes
  pub password : Bytes
  pub host : Bytes
  pub port : Bytes
  pub pathname : Bytes
  pub search : Bytes
  pub hash : Bytes
  pub search_params : ℕ

pub record SearchParams : Type 0 where
  pub list : List Pair
  pub url_object : Option ℕ

pub record Store : Type 0 where
  pub url : ℕ → Url
  pub params : ℕ → SearchParams
  pub next_params : ℕ

-- A write through a pointer.
abbrev pub update {ℓ} : {A : Type ℓ} → (ℕ → A) → ℕ → A → ℕ → A
update f p v q = if p == q then v else f q

abbrev pub set_url : Store → ℕ → Url → Store
set_url m u x = record m { url = update m.url u x }

abbrev pub set_list : Store → ℕ → List Pair → Store
set_list m p l = record m { params = update m.params p (record (m.params p) { list = l }) }

abbrev pub set_link : Store → ℕ → ℕ → Store
set_link m p u = record m {
  params = update m.params p (record (m.params p) { url_object = some u });
}

-- A part of the serialized URL that is written, behind its mark, unless it is empty.
abbrev pub marked : Bytes → Bytes → Bytes
marked mark [] = []
marked mark (c ∷ cs) = mark ++ (c ∷ cs)

abbrev pub protocol_part : Bytes → Bytes
protocol_part [] = []
protocol_part (c ∷ cs) = (c ∷ cs) ++ codes "//"

abbrev pub user_part : Bytes → Bytes → Bytes
user_part [] password = []
user_part (c ∷ cs) password = (c ∷ cs) ++ (marked (codes ":") password ++ codes "@")

-- $serialize_url
unfoldable pub serialize_url : Url → Bytes
serialize_url u =
    protocol_part u.protocol
    ++ (user_part u.username u.password
        ++ (u.host
            ++ (marked (codes ":") u.port
                ++ (u.pathname ++ (marked (codes "?") u.search ++ marked (codes "#") u.hash)))))

-- `$href = $serialize_url()`, the last line of every setter.
abbrev pub refresh : Url → Url
refresh u = record u { href = serialize_url u }

-- Removes a single leading mark.
unfoldable pub strip : ℕ → Bytes → Bytes
strip mark [] = []
strip mark (c ∷ cs) = if c == mark then cs else c ∷ cs

-- URL::set_search
unfoldable pub set_search : ℕ → Bytes → Store → Store
set_search u [] m =
    let x = m.url u in
    set_url (set_list m x.search_params []) u (refresh (record x { search = [] }))
set_search u (c ∷ cs) m =
    let x = m.url u in
    let input = strip b'?' (c ∷ cs) in
    set_url (set_list m x.search_params (parse_query_string input)) u
      (refresh (record x { search = input }))

-- URLSearchParams::$update_url_query
unfoldable pub update_url_query : ℕ → Store → Store
update_url_query p m = elim (m.params p).url_object [
  | none ↦ m
  | some u ↦ set_search u (to_string (m.params p).list) m
]
