-- ===== src/Url/Tests.antt =====
-- A matcher that knows one string, a store, runs of the calls, and the theorems at inputs.
use breeze_js.Prelude.{
  ◌≡◌, ◌≢◌, refl, sym, ap, ◌∙◌, Bool, true, false, List, [], ◌∷◌, Option, none, some, inl, inr,
  Bool-cases, some_injective, arith, All,
}
use breeze_js.Prelude.Result.{ok, throws}
use breeze_js.Bytes.{Bytes, codes, str_eq, str_eq_iff}
use breeze_js.Percent.{percent_encode, percent_decode, is_unreserved, hex_digit}
use breeze_js.Query.{Pair, parse_query_string, to_string}
use breeze_js.Url.{Store, serialize_url, strip, set_search, update_url_query}
use breeze_js.Url.Params.{append, set, get_all}
use breeze_js.Url.Parser.{
  Captures, Groups, InPattern, IsMatch, captures, text, construct, can_parse,
}
use breeze_js.Query.RoundTrip.{IsBytePair}
use breeze_js.Url.Setters.{set_port, set_hash, cannot_have_credentials}
use breeze_js.Url.Sync.{IsSynced}
use breeze_js.Url.Calls.{Call, hash, port, append_to, call, calls}
use breeze_js.Url.Calls.Synced.{calls-construct-IsSynced}
use breeze_js.Url.Edits.{own_list, set_queries}
use breeze_js.Url.Canonical.{can_parse_throws}

-- http://me:pw@h.io:80/p?a=1#z
abbrev known : Groups
known = record {
  scheme = some (codes "http");
  credentials = some (codes "me", some (codes "pw"));
  host = codes "h.io";
  port = some (codes "80");
  path = codes "/p";
  query = some (codes "a=1");
  fragment = some (codes "z");
}

known-InPattern : InPattern known
known-InPattern = record {
  scheme_in = ground arith;
  credentials_in = ground arith;
  host_nonempty = refl;
  host_in = ground arith;
  port_in = ground arith;
  path_in = ground arith;
  query_in = ground arith;
}

abbrev when : Bool → Option Captures
when true = some (captures known)
when false = none

unfoldable match_known : Bytes → Option Captures
unfolding str_eq
match_known s = when (str_eq s (text known))

match_known_sound : (s : Bytes) (c : Captures) → match_known s ≡ some c → IsMatch s c
unfolding match_known
match_known_sound s c e = elim (Bool-cases (str_eq s (text known))) [
  | inl same ↦ (
    known,
    known-InPattern,
    (str_eq_iff s (text known)).0 same,
    sym (some_injective (sym (ap when same) ∙ e)),
  )
  | inr other ↦ cc (ap when other)
]

abbrev blank : Store
blank = record {
  url = λ u. record {
    href = [];
    protocol = [];
    username = [];
    password = [];
    host = [];
    port = [];
    pathname = [];
    search = [];
    hash = [];
    search_params = 0;
  };
  params = λ p. record { list = []; url_object = none };
  next_params = 0;
}

match_known_hit : match_known (text known) ≡ some (captures known)
unfolding match_known
match_known_hit = refl

-- The URL at 3, as it is constructed and after three calls.
constructed : Store
unfolding construct match_known
constructed = elim (construct match_known 3 (text known) blank) [ ok m ↦ m | throws e ↦ blank ]

constructed_ok : construct match_known 3 (text known) blank ≡ ok constructed
unfolding constructed
constructed_ok = refl

abbrev id_sort : List Pair → List Pair
id_sort ps = ps

abbrev script : List Call
script = port [] ∷ append_to 0 (codes "b") (codes "x y") ∷ hash (codes "#end") ∷ []

abbrev or_blank : Option Store → Store
or_blank none = blank
or_blank (some m) = m

after_script : Store
unfolding calls call constructed append set_search update_url_query set_port set_hash
after_script = or_blank (calls match_known id_sort 3 script constructed)

script_runs : calls match_known id_sort 3 script constructed ≡ some after_script
unfolding after_script
script_runs = refl

after_script_href : (after_script.url 3).href ≡ codes "http://me:pw@h.io/p?a=1&b=x%20y#end"
unfolding after_script serialize_url to_string percent_encode is_unreserved hex_digit strip
    cannot_have_credentials parse_query_string percent_decode
after_script_href = refl

calls-construct-IsSynced_example : IsSynced 3 after_script
calls-construct-IsSynced_example =
    calls-construct-IsSynced match_known id_sort 3 (text known) script blank constructed
      after_script (λ p. inl refl) constructed_ok script_runs

no_calls : calls match_known id_sort 3 [] constructed ≡ some constructed
unfolding calls
no_calls = refl

constructed-IsSynced : IsSynced 3 constructed
constructed-IsSynced =
    calls-construct-IsSynced match_known id_sort 3 (text known) [] blank constructed constructed
      (λ p. inl refl) constructed_ok no_calls

constructed_list : own_list 3 constructed ≡ (codes "a", codes "1") ∷ []
unfolding constructed parse_query_string percent_decode
constructed_list = refl

constructed-IsBytePair : All IsBytePair (own_list 3 constructed)
constructed-IsBytePair = rw constructed_list (omega arith)

set_queries_example :
    let l =
      ((set (constructed.url 3).search_params (codes "a") (codes "2") constructed).params
        (constructed.url 3).search_params).list in
    (get_all l (codes "a") ≡ codes "2" ∷ [])
    × ((other : Bytes)
        → other ≢ codes "a"
        → get_all l other ≡ get_all (own_list 3 constructed) other)
set_queries_example =
    set_queries 3 (codes "a") (codes "2") constructed constructed-IsSynced constructed-IsBytePair
      (omega arith) (omega arith)

can_parse_throws_example :
    can_parse match_known 3 (text known) blank ≡ throws (codes "Failed to parse URL")
can_parse_throws_example = can_parse_throws match_known match_known_sound 3 (text known) blank
