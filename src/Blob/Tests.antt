-- ===== src/Blob/Tests.antt =====
-- Runs of slice, and the theorems at inputs.
use breeze_js.Prelude.{arith, ◌≡◌, refl, none, some, [], ◌≤◌, length}
use breeze_js.Prelude.Int.{pos, negsuc, to_int}
use breeze_js.Bytes.{codes}
use breeze_js.Blob.{Blob, slice}
use breeze_js.Blob.Slice.{slice_lem}

abbrev sample : Blob
sample = record { bytes = codes "0123456789"; type = codes "text/plain" }

slice_runs :
    ((slice (some (negsuc 2)) none none sample).bytes ≡ codes "789")
    × ((slice (some (pos 4)) (some (negsuc 3)) none sample).bytes ≡ codes "45")
    × ((slice (some (pos 8)) (some (pos 3)) (some (codes "a/b")) sample)
        ≡ record { bytes = []; type = codes "a/b" })
unfolding slice
slice_runs = (refl, refl, refl)

-- The size of 2^31 bytes, as slice casts it.
size_wraps : to_int 2147483648 ≡ negsuc 2147483647
unfolding to_int
size_wraps = refl

slice_lem_example :
    let bytes = (slice (some (pos 2)) (some (negsuc 0)) none sample).bytes in
    (bytes ≡ codes "2345678") × (length bytes ≡ 7) × (7 ≤ 10)
slice_lem_example = slice_lem (some (pos 2)) (some (negsuc 0)) none sample (omega arith)
