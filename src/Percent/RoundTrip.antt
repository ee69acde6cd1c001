-- ===== src/Percent/RoundTrip.antt =====
-- percent_decode after percent_encode, and the bytes that percent_encode writes.
use breeze_js.Prelude.{
  ℕ, ◌+◌, ◌*◌, ◌/◌, ◌%◌, ◌<◌, ◌≡◌, refl, true, false, ◌||◌, [], ◌∷◌, arith, inl, inr, ◌==◌,
  Bool-cases, All,
}
use breeze_js.Bytes.{Bytes, IsBytes}
use breeze_js.Percent.{is_unreserved, hex_digit, percent_encode, percent_decode}
use breeze_js.Percent.Hex.{read_hex-hex_digit}

-- A byte that is no '%' is copied, whatever follows it.
decode_plain :
    (c : ℕ) (rest : Bytes)
    → (c == b'%') ≡ false
    → percent_decode (c ∷ rest) ≡ c ∷ percent_decode rest
unfolding percent_decode
decode_plain c [] h = refl
decode_plain c (a ∷ []) h = refl
decode_plain c (a ∷ b ∷ cs) h = rw h

decode_escape :
    (d e : ℕ) (rest : Bytes)
    → d < 16
    → e < 16
    → percent_decode (b'%' ∷ hex_digit d ∷ hex_digit e ∷ rest) ≡ (d * 16 + e) ∷ percent_decode rest
unfolding percent_decode
decode_escape d e rest hd he = rw (read_hex-hex_digit d e hd he)

encode_plain :
    (c : ℕ) (cs : Bytes) → is_unreserved c ≡ true → percent_encode (c ∷ cs) ≡ c ∷ percent_encode cs
unfolding percent_encode
encode_plain c cs h = rw h

encode_escape :
    (c : ℕ) (cs : Bytes)
    → is_unreserved c ≡ false
    → percent_encode (c ∷ cs) ≡ b'%' ∷ hex_digit (c / 16) ∷ hex_digit (c % 16) ∷ percent_encode cs
unfolding percent_encode
encode_escape c cs h = rw h

is_unreserved-ne_percent : (c : ℕ) → is_unreserved c ≡ true → (c == b'%') ≡ false
unfolding is_unreserved
is_unreserved-ne_percent c h = ground arith

-- percent_decode reads back every byte string that percent_encode has written.
pub percent_decode-percent_encode : (s : Bytes) → IsBytes s → percent_decode (percent_encode s) ≡ s
percent_decode-percent_encode [] h = unfold percent_decode percent_encode in refl
percent_decode-percent_encode (c ∷ cs) h =
    let ih = percent_decode-percent_encode cs h.1 in
    elim (Bool-cases (is_unreserved c)) [
      | inl plain ↦
          rw (encode_plain c cs plain, decode_plain c _ (is_unreserved-ne_percent c plain), ih)
      | inr escaped ↦
          let q : c / 16 * 16 + c % 16 ≡ c = omega arith in
          rw (
            encode_escape c cs escaped,
            decode_escape (c / 16) (c % 16) _ (omega arith) (omega arith),
            q,
            ih,
          )
    ]

-- A byte that may stand in an encoded string.
abbrev pub IsEncoded : ℕ → Type 0
IsEncoded c = (is_unreserved c || c == b'%') ≡ true

percent-IsEncoded : IsEncoded b'%'
unfolding is_unreserved
percent-IsEncoded = refl

hex_digit-IsEncoded : (d : ℕ) → d < 16 → IsEncoded (hex_digit d)
unfolding is_unreserved hex_digit
hex_digit-IsEncoded d h = ground arith

-- percent_encode writes letters, digits, "-_.~" and '%' only: no separator of a query.
pub percent_encode-IsEncoded : (s : Bytes) → IsBytes s → All IsEncoded (percent_encode s)
percent_encode-IsEncoded [] h = unfold percent_encode in tt
percent_encode-IsEncoded (c ∷ cs) h =
    let ih = percent_encode-IsEncoded cs h.1 in
    elim (Bool-cases (is_unreserved c)) [
      | inl plain ↦ rw (encode_plain c cs plain) (rw plain refl, ih)
      | inr escaped ↦ rw (encode_escape c cs escaped) (
        percent-IsEncoded,
        (
          hex_digit-IsEncoded (c / 16) (omega arith),
          (hex_digit-IsEncoded (c % 16) (omega arith), ih),
        ),
      )
    ]

pub IsEncoded-ne_separator :
    (c : ℕ)
    → IsEncoded c
    → ((c == b'&') ≡ false) × ((c == b'=') ≡ false) × ((c == b'?') ≡ false) × ((c == b'#') ≡ false)
unfolding is_unreserved
IsEncoded-ne_separator c h = ground arith
