-- ===== src/Query/Tests.antt =====
-- Runs of the query parser and printer, and the round trip at an input.
use breeze_js.Prelude.{◌≡◌, refl, List, [], ◌∷◌, arith}
use breeze_js.Bytes.{codes}
use breeze_js.Percent.{is_unreserved, hex_digit, read_hex, percent_encode, percent_decode}
use breeze_js.Query.{Pair, parse_query_string, to_string}
use breeze_js.Query.RoundTrip.{parse_query_string-to_string}

abbrev items : List Pair
items = (codes "q", codes "a b&c") ∷ (codes "", codes "") ∷ (codes "q", codes "") ∷ []

to_string_runs : to_string items ≡ codes "q=a%20b%26c&=&q="
unfolding to_string percent_encode is_unreserved hex_digit
to_string_runs = refl

-- A pair without '=' has no value; a trailing '&' adds nothing.
parse_query_string_runs :
    parse_query_string (codes "a=1=2&b&&c=%41&")
    ≡ (codes "a", codes "1=2") ∷ (codes "b", []) ∷ ([], []) ∷ (codes "c", codes "A") ∷ []
unfolding parse_query_string percent_decode read_hex
parse_query_string_runs = refl

parse_query_string-to_string_example : parse_query_string (to_string items) ≡ items
parse_query_string-to_string_example = parse_query_string-to_string items (omega arith)
