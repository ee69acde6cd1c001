-- ===== src/Percent/Hex.antt =====
-- Hexadecimal digits: what percent_encode writes is what percent_decode reads.
use breeze_js.Prelude.{ℕ, ◌+◌, ◌*◌, ◌<◌, ◌≡◌, some, arith}
use breeze_js.Percent.{hex_digit, hex_value, read_hex}

pub hex_value-hex_digit : (d : ℕ) → d < 16 → hex_value (hex_digit d) ≡ some d
unfolding hex_value hex_digit
hex_value-hex_digit d h = ground arith

pub read_hex-hex_digit :
    (d e : ℕ) → d < 16 → e < 16 → read_hex (hex_digit d) (hex_digit e) ≡ some (d * 16 + e)
unfolding read_hex hex_digit
read_hex-hex_digit d e hd he = ground arith
