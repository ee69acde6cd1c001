-- ===== src/Percent/Tests.antt =====
-- Runs of the two coders.
use breeze_js.Prelude.{◌≡◌, refl, ◌∷◌, ◌++◌}
use breeze_js.Bytes.{codes}
use breeze_js.Percent.{is_unreserved, hex_digit, read_hex, percent_encode, percent_decode}

percent_encode_runs : percent_encode (codes "a b/ü" ++ 0xC3 ∷ codes "~") ≡ codes "a%20b%2F%FC%C3~"
unfolding percent_encode is_unreserved hex_digit
percent_encode_runs = refl

-- A sign and a blank are read as `std::hex` reads them, and a '+' stays.
percent_decode_runs : percent_decode (codes "a+b%2f%-1%4") ≡ codes "a+b/" ++ 255 ∷ codes "%4"
unfolding percent_decode read_hex
percent_decode_runs = refl
