-- ===== src/Url/Params.antt =====
-- The operations of `URLSearchParams`.
pub mod Lists
use breeze_js.Prelude.{
  ℕ, suc, Bool, true, false, ◌&&◌, List, [], ◌∷◌, ◌++◌, Option, none, some, if◌then◌else◌, is_empty,
  length, remove_if,
}
use breeze_js.Bytes.{Bytes, str_eq}
use breeze_js.Query.{Pair, parse_query_string, to_string}
use breeze_js.Url.{Store, set_list, update, update_url_query}

-- `std::make_shared<URLSearchParams>(…)`: a new object that belongs to no URL.
unfoldable pub allocate : List Pair → Store → ℕ × Store
allocate list m = (
  m.next_params,
  record m {
    params = update m.params m.next_params (record { list = list; url_object = none });
    next_params = suc m.next_params;
  },
)

-- The constructors: empty, from a string, and from a vector of vectors, of which those of size two
-- count. The pairs of a `std::map` are taken as they come.
abbrev pub new_params : Store → ℕ × Store
new_params = allocate []

abbrev pub new_params_string : Bytes → Store → ℕ × Store
new_params_string init = allocate (parse_query_string init)

unfoldable pub two_element : List (List Bytes) → List Pair
two_element [] = []
two_element ((name ∷ value ∷ []) ∷ rest) = (name, value) ∷ two_element rest
two_element (_ ∷ rest) = two_element rest

abbrev pub new_params_vectors : List (List Bytes) → Store → ℕ × Store
unfolding two_element
new_params_vectors init = allocate (two_element init)

abbrev pub new_params_map : List Pair → Store → ℕ × Store
new_params_map init = allocate init

abbrev pub size : List Pair → ℕ
size = length

-- The test of `remove` and of `has`: an empty value stands for any.
unfoldable pub is_match : Bytes → Bytes → Pair → Bool
is_match name value pair =
    if is_empty value then str_eq pair.0 name else str_eq pair.0 name && str_eq pair.1 value

unfoldable pub append : ℕ → Bytes → Bytes → Store → Store
append p name value m = update_url_query p (set_list m p ((m.params p).list ++ (name, value) ∷ []))

unfoldable pub remove : ℕ → Bytes → Bytes → Store → Store
remove p name value m =
    update_url_query p (set_list m p (remove_if (is_match name value) (m.params p).list))

unfoldable pub get : List Pair → Bytes → Bytes
get [] name = []
get (pair ∷ rest) name = if str_eq pair.0 name then pair.1 else get rest name

unfoldable pub get_all : List Pair → Bytes → List Bytes
get_all [] name = []
get_all (pair ∷ rest) name =
    if str_eq pair.0 name then pair.1 ∷ get_all rest name else get_all rest name

unfoldable pub has : List Pair → Bytes → Bytes → Bool
has [] name value = false
has (pair ∷ rest) name value = if is_match name value pair then true else has rest name value

unfoldable pub set : ℕ → Bytes → Bytes → Store → Store
set p name value m = append p name value (remove p name [] m)

-- `std::sort` is given as an argument: the order that it leaves among equal names is not fixed.
unfoldable pub sort : (List Pair → List Pair) → ℕ → Store → Store
sort std_sort p m = update_url_query p (set_list m p (std_sort (m.params p).list))
