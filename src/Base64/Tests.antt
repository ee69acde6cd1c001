-- ===== src/Base64/Tests.antt =====
-- Runs of btoa and atob, and the theorems at inputs.
use breeze_js.Prelude.{◌≡◌, refl, arith}
use breeze_js.Bytes.{codes}
use breeze_js.Base64.{char_at, index_of, btoa, atob}
use breeze_js.Base64.RoundTrip.{atob-btoa}
use breeze_js.Base64.Reference.{base64, btoa-base64}

btoa_runs : (btoa (codes "hello!!") ≡ codes "aGVsbG8hIQ==") × (btoa (codes "Ma") ≡ codes "TWE=")
unfolding btoa char_at
btoa_runs = (refl, refl)

-- White space is skipped, and reading stops at the first '='.
atob_runs : atob (codes "aGVs bG8\nhIQ==TWE") ≡ codes "hello!!"
unfolding atob index_of
atob_runs = refl

atob-btoa_example : atob (btoa (codes "any bytes")) ≡ codes "any bytes"
atob-btoa_example = atob-btoa (codes "any bytes") (omega arith)

btoa-base64_example : btoa (codes "any byte") ≡ base64 (codes "any byte")
btoa-base64_example = btoa-base64 (codes "any byte") (omega arith)
