-- ===== src/Percent.antt =====
-- `percent_encode` and `percent_decode` of src/breeze-js/binding/std/infra.cc.
pub mod Hex
pub mod RoundTrip
mod Tests
use breeze_js.Prelude.{
  ℕ, suc, ◌+◌, ◌-◌, ◌*◌, ◌/◌, ◌%◌, Bool, ◌||◌, ◌&&◌, List, [], ◌∷◌, ◌++◌, Option, none, some, ltb,
  leb, ◌==◌, if◌then◌else◌,
}
use breeze_js.Bytes.{Bytes, is_alnum, is_space, within}

-- What percent_encode writes as it stands.
unfoldable pub is_unreserved : ℕ → Bool
is_unreserved c = is_alnum c || c == b'-' || c == b'_' || c == b'.' || c == b'~'

-- A digit of `std::hex` with `std::uppercase`.
unfoldable pub hex_digit : ℕ → ℕ
hex_digit d = if ltb d 10 then b'0' + d else b'A' + (d - 10)

-- `std::setw(2)` with the fill '0': two digits for a byte.
unfoldable pub percent_encode : Bytes → Bytes
percent_encode [] = []
percent_encode (c ∷ cs) =
    if is_unreserved c
    then c ∷ percent_encode cs
    else b'%' ∷ hex_digit (c / 16) ∷ hex_digit (c % 16) ∷ percent_encode cs

-- The value of a hexadecimal digit, of either case.
unfoldable pub hex_value : ℕ → Option ℕ
hex_value c =
    if within b'0' b'9' c
    then some (c - b'0')
    else if within b'A' b'F' c
    then some (c - b'A' + 10)
    else if within b'a' b'f' c
    then some (c - b'a' + 10)
    else none

-- `iss >> std::hex >> value` on a stream of the two characters `a`, `b`, with `value` cut to a
-- `char`: white space is skipped, a sign may stand first, and the reading stops at a character that
-- is no digit; "0x" alone is no number.
unfoldable pub read_hex : ℕ → ℕ → Option ℕ
unfolding hex_value
read_hex a b =
    if is_space a
    then hex_value b
    else if a == b'+'
    then hex_value b
    else if a == b'-'
    then elim (hex_value b) [ none ↦ none | some v ↦ some ((256 - v) % 256) ]
    else if a == b'0' && (b == b'x' || b == b'X')
    then none
    else elim (hex_value a) [
      | none ↦ none
      | some v ↦ elim (hex_value b) [ none ↦ some v | some w ↦ some (v * 16 + w) ]
    ]

-- The loop of percent_decode over the rest of the string: `i + 2 < str.size()` says that two
-- characters stand behind the '%'.
unfoldable pub percent_decode : Bytes → Bytes
percent_decode [] = []
percent_decode (c ∷ []) = c ∷ []
percent_decode (c ∷ a ∷ []) = c ∷ percent_decode (a ∷ [])
percent_decode (c ∷ a ∷ b ∷ cs) =
    let plain = c ∷ percent_decode (a ∷ b ∷ cs) in
    let rest = percent_decode cs in
    if c == b'%' then elim (read_hex a b) [ none ↦ plain | some v ↦ v ∷ rest ] else plain
