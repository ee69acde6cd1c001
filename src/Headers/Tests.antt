-- ===== src/Headers/Tests.antt =====
-- Runs of the headers, and their specification at inputs.
use breeze_js.Prelude.{◌≡◌, refl, List, [], ◌∷◌, remove_if}
use breeze_js.Bytes.{codes, to_lower, str_eq}
use breeze_js.Headers.{Header, is_named, get, set, has, append, remove}
use breeze_js.Headers.Multimap.{
  Edit, set_to, append_to, remove_all, edit, edits, values, first_value, has_value,
  values_after_all, edits-values,
}

abbrev sample : List Header
sample = (codes "Content-Type", codes "text/html") ∷ (codes "ETag", codes "x") ∷ []

set_runs :
    set sample (codes "content-type") (codes "a/b")
    ≡ (codes "Content-Type", codes "a/b") ∷ (codes "ETag", codes "x") ∷ []
unfolding set is_named to_lower str_eq
set_runs = refl

-- "etag" is set, added to and read in other spellings.
abbrev some_edits : List Edit
some_edits =
    set_to (codes "etag") (codes "y")
    ∷ append_to (codes "ETAG") (codes "z")
    ∷ remove_all (codes "content-type")
    ∷ []

edits_run : edits sample some_edits ≡ (codes "ETag", codes "y") ∷ (codes "ETAG", codes "z") ∷ []
unfolding edits edit set append remove remove_if is_named to_lower str_eq
edits_run = refl

edits-values_example :
    let vs = values_after_all (codes "Etag") (values (codes "Etag") sample) some_edits in
    (values (codes "Etag") (edits sample some_edits) ≡ vs)
    × (get (edits sample some_edits) (codes "Etag") ≡ first_value vs)
    × (has (edits sample some_edits) (codes "Etag") ≡ has_value vs)
edits-values_example = edits-values sample some_edits (codes "Etag")
