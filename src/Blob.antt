-- ===== src/Blob.antt =====
-- `Blob` of src/breeze-js/binding/std/blob.{h,cc}. The size is cast to an `int`, and wraps. Every sum
-- that slice computes lies between the values it starts from, so none overflows for a blob of fewer
-- than 2^31 bytes. From 2^31 bytes on the size is negative, and the iterators of the code may leave the
-- data, which is undefined; what is written here for it then means nothing.
pub mod Slice
mod Tests
use breeze_js.Prelude.{
  ℕ, ◌-◌, Bool, List, [], ◌∷◌, Option, none, some, ltb, if◌then◌else◌, length, take, drop,
}
use breeze_js.Prelude.Int.{ℤ, pos, negsuc, ◌+ℤ◌, ◌-ℤ◌, to_int, ltb_ℤ, max_ℤ, min_ℤ, pos_part}
use breeze_js.Bytes.{Bytes}

pub record Blob : Type 0 where
  pub bytes : Bytes
  pub type : Bytes

abbrev pub get_size : Blob → ℕ
get_size b = length b.bytes

abbrev pub get_type : Blob → Bytes
get_type b = b.type

abbrev pub array_buffer : Blob → Bytes
array_buffer b = b.bytes

abbrev pub text : Blob → Bytes
text b = b.bytes

abbrev pub value_or {ℓ} : {A : Type ℓ} → Option A → A → A
value_or none d = d
value_or (some a) d = a

-- "Resolve start" and "Resolve end": an index from the end of `size` bytes, or from the start.
unfoldable pub resolve : ℤ → ℤ → ℤ
resolve size s = if ltb_ℤ s (pos 0) then max_ℤ (size +ℤ s) (pos 0) else min_ℤ s size

-- `blob->$data.assign($data.begin() + s, $data.begin() + s + span)`
unfoldable pub slice : Option ℤ → Option ℤ → Option Bytes → Blob → Blob
unfolding resolve to_int
slice start end content_type b =
    let size = to_int (length b.bytes) in
    let s = resolve size (value_or start (pos 0)) in
    let e = resolve size (value_or end size) in
    let span = max_ℤ (e -ℤ s) (pos 0) in
    record {
      bytes = if ltb_ℤ (pos 0) span then take (pos_part span) (drop (pos_part s) b.bytes) else [];
      type = value_or content_type [];
    }
