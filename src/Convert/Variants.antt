-- ===== src/Convert/Variants.antt =====
-- How a value of the engine becomes a std::variant: js_traits<std::variant<Ts...>>::unwrap of
-- src/breeze-js/headers/breeze-js/quickjspp.hpp, and the js_traits of std::optional and of
-- std::vector<uint8_t> there.
--
-- What the code asks the engine about a value is a parameter, as are the js_traits of the
-- alternatives; what the code asks of the type of an alternative, by its type traits, are fields.
pub mod Body
mod Tests
use breeze_js.Prelude.{
  ℕ, Bool, true, false, ◌&&◌, ◌||◌, List, [], ◌∷◌, Option, none, some, ◌==◌, if◌then◌else◌,
}
use breeze_js.Bytes.{Bytes}
use breeze_js.Convert.{Unwrapped, unwrapped, js_exception, other_exception}

-- JS_VALUE_GET_TAG; float64_tag is also every tag that the code does not name.
pub data Tag : Type 0 where
  string_tag bytecode_tag object_tag int_tag big_int_tag bool_tag float64_tag : Tag
  symbol_tag module_tag null_tag undefined_tag uninitialized_tag catch_offset_tag : Tag
  exception_tag : Tag

-- `JS_IsNull(v) || JS_IsUndefined(v)`
abbrev pub is_nullish : Tag → Bool
is_nullish null_tag = true
is_nullish undefined_tag = true
is_nullish _ = false

-- The try of std::optional, which catches every std::exception.
abbrev pub if_ok : {V : Type 0} → Unwrapped V → Option V
if_ok (unwrapped x) = some x
if_ok js_exception = none
if_ok other_exception = none

-- The engine's answers about values `J`; none of JS_GetArrayBuffer and JS_GetUint8Array is a null
-- pointer, and `get_class_id` is asked of objects only.
pub record Inspect (J : Type 0) : Type 0 where
  pub tag : J → Tag
  pub is_function : J → Bool
  pub is_array : J → Bool
  pub get_class_id : J → ℕ
  pub get_array_buffer : J → Option Bytes
  pub get_uint8_array : J → Option Bytes
  pub get_property_uint32 : J → ℕ → J

-- The type traits of a type: `class_id` is QJSClassId of a std::shared_ptr.
pub record Kind : Type 0 where
  pub is_string : Bool
  pub is_boolean : Bool
  pub is_double : Bool
  pub is_integral : Bool
  pub is_floating_point : Bool
  pub is_callable : Bool
  pub is_byte_vector : Bool
  pub is_vector : Bool
  pub is_pair : Bool
  pub class_id : Option ℕ

-- An alternative of a variant `V`: its type, the types of a vector's elements and of the parts of
-- a pair, js_traits<std::optional<U>>::unwrap if it is a variant itself, and js_traits<U>::unwrap.
pub record Alternative (J V : Type 0) : Type 0 where
  pub kind : Kind
  pub value_type : Kind
  pub first_type : Kind
  pub second_type : Kind
  pub embedded : Option (J → Option V)
  pub unwrap : J → Unwrapped V

module _ {J : Type 0} (host : Inspect J) where
  -- `JS_GetArrayBuffer(…) || JS_GetUint8Array(…)`
  abbrev pub has_bytes : J → Bool
  has_bytes v = elim (host.get_array_buffer v) [
    | some b ↦ true
    | none ↦ elim (host.get_uint8_array v) [ some b ↦ true | none ↦ false ]
  ]

  -- js_traits<std::vector<uint8_t>>::unwrap
  unfoldable pub unwrap_bytes : J → Unwrapped Bytes
  unwrap_bytes v = elim (host.get_array_buffer v) [
    | some b ↦ unwrapped b
    | none ↦ elim (host.get_uint8_array v) [ some b ↦ unwrapped b | none ↦ js_exception ]
  ]

  abbrev pub has_class : Option ℕ → ℕ → Bool
  has_class none id = false
  has_class (some c) id = id == c

  -- isCompatible<T>
  unfoldable pub is_compatible_tag : Kind → Tag → J → Bool
  is_compatible_tag k string_tag v = k.is_string
  is_compatible_tag k bytecode_tag v = k.is_callable
  is_compatible_tag k object_tag v =
      if k.is_byte_vector && has_bytes v
      then true
      else if host.is_array v
      then k.is_vector || k.is_pair
      else has_class k.class_id (host.get_class_id v)
  is_compatible_tag k int_tag v = k.is_integral || k.is_floating_point
  is_compatible_tag k big_int_tag v = k.is_integral || k.is_floating_point
  is_compatible_tag k bool_tag v = k.is_boolean || (k.is_integral || k.is_floating_point)
  is_compatible_tag k float64_tag v = k.is_double || k.is_floating_point
  is_compatible_tag k _ v = false

  unfoldable pub is_compatible : Kind → J → Bool
  unfolding is_compatible_tag
  is_compatible k v =
      if host.is_function v then k.is_callable else is_compatible_tag k (host.tag v) v

module _ {J V : Type 0} (host : Inspect J) where
  -- unwrapImpl: none is std::nullopt.
  unfoldable pub unwrap_impl : (Kind → Bool) → List (Alternative J V) → J → Option (Unwrapped V)
  unwrap_impl trait [] v = none
  unwrap_impl trait (u ∷ us) v = if trait u.kind then some (u.unwrap v) else unwrap_impl trait us v

  -- unwrapPriority
  unfoldable pub unwrap_priority : List (Kind → Bool) → List (Alternative J V) → J → Unwrapped V
  unfolding unwrap_impl
  unwrap_priority [] us v = js_exception
  unwrap_priority (trait ∷ traits) us v = elim (unwrap_impl trait us v) [
    | some r ↦ r
    | none ↦ unwrap_priority traits us v
  ]

  -- What unwrapObj asks of one alternative behind the embedded variant.
  unfoldable pub fits : Alternative J V → J → Bool
  fits u v =
      (u.kind.is_byte_vector && has_bytes host v)
      || ((u.kind.is_vector
            && (host.is_array v && is_compatible host u.value_type (host.get_property_uint32 v 0)))
          || (u.kind.is_pair
              && (host.is_array v
                  && (is_compatible host u.first_type (host.get_property_uint32 v 0)
                      && is_compatible host u.second_type (host.get_property_uint32 v 1)))))

  -- The embedded variant of an alternative, if it is one and takes the value.
  unfoldable pub unwrap_embedded : Option (J → Option V) → J → Option V
  unwrap_embedded none v = none
  unwrap_embedded (some unwrap) v = unwrap v

  -- unwrapObj
  unfoldable pub unwrap_obj : List (Alternative J V) → J → ℕ → Option (Unwrapped V)
  unfolding fits unwrap_embedded
  unwrap_obj [] v class_id = none
  unwrap_obj (u ∷ us) v class_id =
      let rest = unwrap_obj us v class_id in
      if has_class host u.kind.class_id class_id
      then some (u.unwrap v)
      else elim (unwrap_embedded u.embedded v) [
        | some x ↦ some (unwrapped x)
        | none ↦ if fits u v then some (u.unwrap v) else rest
      ]

  -- The switch of js_traits<std::variant<Ts...>>::unwrap.
  unfoldable pub unwrap_tag : Tag → List (Alternative J V) → J → Unwrapped V
  unfolding unwrap_obj unwrap_priority
  unwrap_tag string_tag us v = unwrap_priority ((λ k. k.is_string) ∷ []) us v
  unwrap_tag bytecode_tag us v = unwrap_priority ((λ k. k.is_callable) ∷ []) us v
  unwrap_tag object_tag us v = elim (unwrap_obj us v (host.get_class_id v)) [
    | some r ↦ r
    | none ↦ js_exception
  ]
  unwrap_tag int_tag us v =
      unwrap_priority ((λ k. k.is_integral) ∷ (λ k. k.is_floating_point) ∷ []) us v
  unwrap_tag big_int_tag us v =
      unwrap_priority ((λ k. k.is_integral) ∷ (λ k. k.is_floating_point) ∷ []) us v
  unwrap_tag bool_tag us v =
      unwrap_priority ((λ k. k.is_boolean) ∷ (λ k. k.is_integral) ∷ (λ k. k.is_floating_point) ∷ [])
        us v
  unwrap_tag float64_tag us v =
      unwrap_priority ((λ k. k.is_double) ∷ (λ k. k.is_floating_point) ∷ []) us v
  unwrap_tag _ us v = js_exception

  -- js_traits<std::variant<Ts...>>::unwrap
  unfoldable pub unwrap_variant : List (Alternative J V) → J → Unwrapped V
  unfolding unwrap_tag
  unwrap_variant us v =
      if host.is_function v
      then unwrap_priority ((λ k. k.is_callable) ∷ []) us v
      else unwrap_tag (host.tag v) us v

  -- js_traits<std::optional<T>>::unwrap, by the one of T.
  unfoldable pub unwrap_optional : (J → Unwrapped V) → J → Option V
  unwrap_optional unwrap v = if is_nullish (host.tag v) then none else if_ok (unwrap v)
