-- ===== src/Blob/Slice.antt =====
-- Bounds and contents of a slice.
use breeze_js.Prelude.{
  ℕ, suc, zero, ◌^◌, ◌<◌, ◌+◌, ◌-◌, ◌≤◌, ◌≡◌, refl, [], Option, arith, if◌then◌else◌, length, take,
  drop, min, length-take, length-drop, lt→ltb,
}
use breeze_js.Prelude.Int.{ℤ, pos, negsuc, ◌-ℤ◌, to_int_small, ltb_ℤ, max_ℤ}
use breeze_js.Bytes.{Bytes}
use breeze_js.Blob.{Blob, value_or, resolve, slice}

-- An index as the standard reads it: back from the end if it is negative, and held to the bytes
-- that are there.
abbrev pub clamp_index : ℕ → ℤ → ℕ
clamp_index size (pos i) = min i size
clamp_index size (negsuc i) = size - suc i

clamp_index-le : (size : ℕ) (i : ℤ) → clamp_index size i ≤ size
clamp_index-le size (pos i) = omega arith
clamp_index-le size (negsuc i) = omega arith

resolve_lem : (size : ℕ) (i : ℤ) → resolve (pos size) i ≡ pos (clamp_index size i)
unfolding resolve
resolve_lem size (pos i) = ground arith
resolve_lem size (negsuc i) = ground arith

span_lem : (f t : ℕ) → max_ℤ (pos t -ℤ pos f) (pos 0) ≡ pos (t - f)
span_lem f t = ground arith

assign_lem :
    (span f : ℕ) (s : Bytes)
    → (if ltb_ℤ (pos 0) (pos span) then take span (drop f s) else []) ≡ take span (drop f s)
assign_lem zero f s = refl
assign_lem (suc n) f s = rw (lt→ltb (0 + 0) (suc n + 0) (omega arith))

slice-bytes :
    (start end : Option ℤ) (t : Option Bytes) (b : Blob)
    → length b.bytes < 2 ^ 31
    → let n = length b.bytes in
      let from = clamp_index n (value_or start (pos 0)) in
      let to = clamp_index n (value_or end (pos n)) in
      (slice start end t b).bytes ≡ take (to - from) (drop from b.bytes)
unfolding slice
slice-bytes start end t b small =
    let n = length b.bytes in
    let f = clamp_index n (value_or start (pos 0)) in
    let t = clamp_index n (value_or end (pos n)) in
    rw
      (
        to_int_small n small,
        resolve_lem n (value_or start (pos 0)),
        resolve_lem n (value_or end (pos n)),
        span_lem f t,
      )
      (assign_lem (t - f) f b.bytes)

length-slice :
    (start end : Option ℤ) (t : Option Bytes) (b : Blob)
    → length b.bytes < 2 ^ 31
    → let n = length b.bytes in
      let from = clamp_index n (value_or start (pos 0)) in
      let to = clamp_index n (value_or end (pos n)) in
      (length (slice start end t b).bytes ≡ to - from) × (to - from ≤ n)
length-slice start end t b small =
    let n = length b.bytes in
    let f = clamp_index n (value_or start (pos 0)) in
    let e = clamp_index n (value_or end (pos n)) in
    let bound = clamp_index-le n (value_or end (pos n)) in
    (
      rw (slice-bytes start end t b small)
          (omega (arith, bound, length-take (e - f) (drop f b.bytes), length-drop f b.bytes)),
      omega (arith, bound),
    )

-- For a blob of fewer than 2^31 bytes: a slice holds the bytes from the one index up to the other, where a negative index counts back
-- from the end and every index is held to the bytes that are there; none if they cross. So its size is
-- their distance, and never more than the blob's.
pub slice_lem :
    (start end : Option ℤ) (t : Option Bytes) (b : Blob)
    → length b.bytes < 2 ^ 31
    → let n = length b.bytes in
      let from = clamp_index n (value_or start (pos 0)) in
      let to = clamp_index n (value_or end (pos n)) in
      let bytes = (slice start end t b).bytes in
      (bytes ≡ take (to - from) (drop from b.bytes)) × (length bytes ≡ to - from) × (to - from ≤ n)
slice_lem start end t b small =
    let (len, within) = length-slice start end t b small in
    (slice-bytes start end t b small, len, within)
