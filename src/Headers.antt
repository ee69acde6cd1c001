-- ===== src/Headers.antt =====
-- `http::Headers` of src/breeze-js/binding/std/http.{h,cc}: a list of pairs whose names are compared
-- in lower case. `tolower` is taken byte by byte in the "C" locale.
pub mod Laws
pub mod Multimap
mod Tests
use breeze_js.Prelude.{Bool, true, false, List, [], ◌∷◌, ◌++◌, map, if◌then◌else◌, remove_if}
use breeze_js.Bytes.{Bytes, to_lower, str_eq}

abbrev pub Header : Type 0
Header = Bytes × Bytes

abbrev pub lower : Bytes → Bytes
lower = map to_lower

-- `lower_k == lower_name`
unfoldable pub is_named : Bytes → Header → Bool
is_named name header = str_eq (lower header.0) (lower name)

unfoldable pub get : List Header → Bytes → Bytes
get [] name = []
get (h ∷ hs) name = if is_named name h then h.1 else get hs name

-- The first header of that name takes the value and keeps its own spelling; if there is none, one
-- is added at the end.
unfoldable pub set : List Header → Bytes → Bytes → List Header
set [] name value = (name, value) ∷ []
set (h ∷ hs) name value = if is_named name h then (h.0, value) ∷ hs else h ∷ set hs name value

unfoldable pub has : List Header → Bytes → Bool
has [] name = false
has (h ∷ hs) name = if is_named name h then true else has hs name

unfoldable pub append : List Header → Bytes → Bytes → List Header
append list name value = list ++ (name, value) ∷ []

unfoldable pub remove : List Header → Bytes → List Header
unfolding remove_if
remove list name = remove_if (is_named name) list
