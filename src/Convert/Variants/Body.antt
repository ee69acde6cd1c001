-- ===== src/Convert/Variants/Body.antt =====
-- The body of a request of fetch: std::optional of a std::variant of std::string,
-- std::vector<uint8_t> and std::shared_ptr<Blob> (RequestInit in
-- src/breeze-js/binding/std/http.h).
use breeze_js.Prelude.{
  ℕ, ◌≡◌, ◌≢◌, refl, inl, inr, true, false, List, [], ◌∷◌, Option, none, some, ◌==◌, if◌then◌else◌,
  Bool-cases, Option-cases, arith,
}
use breeze_js.Bytes.{Bytes}
use breeze_js.Blob.{Blob}
use breeze_js.Fetch.{Body, text_body, array_body, blob_body}
use breeze_js.Convert.{Unwrapped, unwrapped, js_exception, other_exception}
use breeze_js.Convert.Variants.{
  Tag, string_tag, bytecode_tag, object_tag, int_tag, big_int_tag, bool_tag, float64_tag,
  symbol_tag, module_tag, null_tag, undefined_tag, uninitialized_tag, catch_offset_tag,
  exception_tag, Inspect, Kind, Alternative, unwrap_bytes, fits, unwrap_embedded, unwrap_obj,
  unwrap_tag, unwrap_variant, unwrap_optional, is_nullish, if_ok,
}

-- A type of which no trait holds.
abbrev pub no_kind : Kind
no_kind = record {
  is_string = false;
  is_boolean = false;
  is_double = false;
  is_integral = false;
  is_floating_point = false;
  is_callable = false;
  is_byte_vector = false;
  is_vector = false;
  is_pair = false;
  class_id = none;
}

abbrev pub uint8_kind : Kind
uint8_kind = record no_kind { is_integral = true }

abbrev pub string_kind : Kind
string_kind = record no_kind { is_string = true }

abbrev pub bytes_kind : Kind
bytes_kind = record no_kind { is_byte_vector = true; is_vector = true }

abbrev pub shared_kind : ℕ → Kind
shared_kind id = record no_kind { class_id = some id }

abbrev pub map_unwrapped : {T V : Type 0} → (T → V) → Unwrapped T → Unwrapped V
map_unwrapped f (unwrapped v) = unwrapped (f v)
map_unwrapped f js_exception = js_exception
map_unwrapped f other_exception = other_exception

-- An alternative that is no variant.
abbrev pub plain : {J V : Type 0} → Kind → Kind → (J → Unwrapped V) → Alternative J V
plain kind value_type unwrap = record {
  kind = kind;
  value_type = value_type;
  first_type = no_kind;
  second_type = no_kind;
  embedded = none;
  unwrap = unwrap;
}

module _ {J : Type 0} (host : Inspect J) (to_text : J → Unwrapped Bytes) (blob_id : ℕ)
    (to_blob : J → Unwrapped Blob) where
  -- The alternatives of the body, with the js_traits of std::string and std::shared_ptr<Blob>, and
  -- the class of Blob.
  abbrev pub body_types : List (Alternative J Body)
  body_types =
      plain string_kind no_kind (λ v. map_unwrapped text_body (to_text v))
      ∷ plain bytes_kind uint8_kind (λ v. map_unwrapped array_body (unwrap_bytes host v))
      ∷ plain (shared_kind blob_id) no_kind (λ v. map_unwrapped blob_body (to_blob v))
      ∷ []

  unfoldable pub unwrap_body : J → Option Body
  unfolding unwrap_optional unwrap_variant
  unwrap_body v = unwrap_optional host (unwrap_variant host body_types) v

  -- What becomes of a value: a string, the bytes of a buffer, or a Blob is the body, if its
  -- conversion throws nothing; there is no body otherwise.
  unfoldable pub object_body : J → Option Body
  object_body v = elim (host.get_array_buffer v) [
    | some b ↦ some (array_body b)
    | none ↦ elim (host.get_uint8_array v) [
      | some b ↦ some (array_body b)
      | none ↦
          if host.get_class_id v == blob_id
          then if_ok (map_unwrapped blob_body (to_blob v))
          else none
    ]
  ]

  abbrev pub tag_body : Tag → J → Option Body
  tag_body string_tag v = if_ok (map_unwrapped text_body (to_text v))
  tag_body object_tag v = object_body v
  tag_body _ v = none

  abbrev pub expected_body : J → Option Body
  expected_body v = if host.is_function v then none else tag_body (host.tag v) v

  unwrap_tag-object :
      (v : J)
      → (host.is_array v ≡ true → host.get_class_id v ≢ blob_id)
      → if_ok (unwrap_tag host object_tag body_types v) ≡ object_body v
  unfolding unwrap_tag unwrap_obj unwrap_embedded fits unwrap_bytes object_body
  unwrap_tag-object v h = elim (Option-cases (host.get_array_buffer v)) [
    | inr (b, e) ↦
        rw (unwrap_tag, unwrap_obj, unwrap_embedded, fits, unwrap_bytes, object_body, e) refl
    | inl e ↦ elim (Option-cases (host.get_uint8_array v)) [
      | inr (b, f) ↦
          rw (unwrap_tag, unwrap_obj, unwrap_embedded, fits, unwrap_bytes, object_body, e, f) refl
      | inl f ↦ elim (Bool-cases (host.is_array v)) [
        | inl array ↦
            rw
              (
                unwrap_tag, unwrap_obj, unwrap_embedded, fits, unwrap_bytes, object_body, e, f,
                array,
              )
              (ground (arith, h array))
        | inr other ↦
            rw
              (
                unwrap_tag, unwrap_obj, unwrap_embedded, fits, unwrap_bytes, object_body, e, f,
                other,
              )
              (ground arith)
      ]
    ]
  ]

  unwrap_tag-body :
      (t : Tag) (v : J)
      → (host.is_array v ≡ true → host.get_class_id v ≢ blob_id)
      → (if is_nullish t then none else if_ok (unwrap_tag host t body_types v)) ≡ tag_body t v
  unfolding unwrap_tag
  unwrap_tag-body object_tag v h = unwrap_tag-object v h
  unwrap_tag-body string_tag v h = refl
  unwrap_tag-body bytecode_tag v h = refl
  unwrap_tag-body int_tag v h = refl
  unwrap_tag-body big_int_tag v h = refl
  unwrap_tag-body bool_tag v h = refl
  unwrap_tag-body float64_tag v h = refl
  unwrap_tag-body symbol_tag v h = refl
  unwrap_tag-body module_tag v h = refl
  unwrap_tag-body null_tag v h = refl
  unwrap_tag-body undefined_tag v h = refl
  unwrap_tag-body uninitialized_tag v h = refl
  unwrap_tag-body catch_offset_tag v h = refl
  unwrap_tag-body exception_tag v h = refl

  -- The body of a request is the text of a string, the bytes of an ArrayBuffer or of a Uint8Array, or
  -- the Blob, as long as no array has the class of Blob. Every other value, such as a number, a
  -- plain object, an array of numbers or a function, is no body, without an error, and so is a value
  -- whose conversion throws.
  pub unwrap_body_lem :
      (v : J)
      → (host.is_array v ≡ true → host.get_class_id v ≢ blob_id)
      → unwrap_body v ≡ expected_body v
  unfolding unwrap_body unwrap_optional unwrap_variant
  unwrap_body_lem v h = elim (Bool-cases (host.is_function v)) [
    | inl function ↦
        rw (unwrap_body, unwrap_optional, unwrap_variant, function)
          (elim (Bool-cases (is_nullish (host.tag v))) [
            | inl nullish ↦ rw nullish refl
            | inr other ↦ rw other refl
          ])
    | inr other ↦
        rw (unwrap_body, unwrap_optional, unwrap_variant, other) (unwrap_tag-body (host.tag v) v h)
  ]
