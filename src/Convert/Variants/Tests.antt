-- ===== src/Convert/Variants/Tests.antt =====
-- Runs of the conversions to a variant, and the theorems at values.
use breeze_js.Prelude.{
  ℕ, zero, suc, ◌≡◌, refl, Bool, true, false, List, [], ◌∷◌, Option, none, some,
}
use breeze_js.Bytes.{Bytes, codes}
use breeze_js.Blob.{Blob}
use breeze_js.Fetch.{Body, text_body, array_body, blob_body}
use breeze_js.Convert.{Unwrapped, unwrapped, js_exception}
use breeze_js.Convert.Variants.{
  Tag, string_tag, object_tag, int_tag, undefined_tag, Inspect, Alternative, is_compatible,
  unwrap_bytes, unwrap_variant,
}
use breeze_js.Convert.Variants.Body.{
  no_kind, uint8_kind, bytes_kind, plain, unwrap_body, expected_body, unwrap_body_lem,
}

-- Some values of an engine.
data Js : Type 0 where
  text : Bytes → Js
  number : ℕ → Js
  undefined : Js
  array : List ℕ → Js
  buffer bytes : Bytes → Js
  blob : Blob → Js

abbrev item : List ℕ → ℕ → Js
item [] n = undefined
item (x ∷ xs) zero = number x
item (x ∷ xs) (suc n) = item xs n

abbrev tag_of : Js → Tag
tag_of (text s) = string_tag
tag_of (number n) = int_tag
tag_of undefined = undefined_tag
tag_of _ = object_tag

abbrev is_array_of : Js → Bool
is_array_of (array xs) = true
is_array_of _ = false

abbrev class_of : Js → ℕ
class_of (array xs) = 2
class_of (buffer b) = 20
class_of (bytes b) = 22
class_of (blob b) = 60
class_of _ = 1

abbrev buffer_of : Js → Option Bytes
buffer_of (buffer b) = some b
buffer_of _ = none

abbrev uint8_array_of : Js → Option Bytes
uint8_array_of (bytes b) = some b
uint8_array_of _ = none

abbrev item_of : Js → ℕ → Js
item_of (array xs) n = item xs n
item_of _ n = undefined

abbrev engine : Inspect Js
engine = record {
  tag = tag_of;
  is_function = λ v. false;
  is_array = is_array_of;
  get_class_id = class_of;
  get_array_buffer = buffer_of;
  get_uint8_array = uint8_array_of;
  get_property_uint32 = item_of;
}

abbrev to_text : Js → Unwrapped Bytes
to_text (text s) = unwrapped s
to_text _ = js_exception

abbrev to_blob : Js → Unwrapped Blob
to_blob (blob b) = unwrapped b
to_blob _ = js_exception

abbrev a_blob : Blob
a_blob = record { bytes = codes "b"; type = codes "text/plain" }

abbrev body_of : Js → Option Body
body_of = unwrap_body engine to_text 60 to_blob

body_runs :
    (body_of (text (codes "a")) ≡ some (text_body (codes "a")))
    × (body_of (bytes (codes "b")) ≡ some (array_body (codes "b")))
    × (body_of (blob a_blob) ≡ some (blob_body a_blob))
    × (body_of (number 42) ≡ none)
    × (body_of (array (1 ∷ [])) ≡ none)
unfolding unwrap_body unwrap_bytes is_compatible
body_runs = (refl, refl, refl, refl, refl)

unwrap_body_lem_example :
    body_of (blob a_blob) ≡ expected_body engine to_text 60 to_blob (blob a_blob)
unwrap_body_lem_example = unwrap_body_lem engine to_text 60 to_blob (blob a_blob) (λ e. cc)

-- std::variant<std::vector<uint8_t>, std::vector<int>>, whose second alternative takes every array
-- of numbers.
abbrev to_numbers : Js → Unwrapped (List ℕ)
to_numbers (array xs) = unwrapped xs
to_numbers _ = js_exception

abbrev lists : List (Alternative Js (List ℕ))
lists =
    plain bytes_kind uint8_kind (unwrap_bytes engine)
    ∷ plain (record no_kind { is_vector = true }) uint8_kind to_numbers
    ∷ []

-- Its first alternative throws at an array of numbers, and an empty array fits none.
arrays_run :
    (unwrap_variant engine lists (array (1 ∷ [])) ≡ js_exception)
    × (unwrap_variant engine lists (array []) ≡ js_exception)
unfolding unwrap_variant unwrap_bytes is_compatible
arrays_run = (refl, refl)
