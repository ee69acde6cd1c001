-- ===== src/Base64/Reference.antt =====
-- btoa against RFC 4648: groups of three bytes, with "=" behind a group that is not full.
use breeze_js.Prelude.{
  ℕ, zero, suc, Bool, true, ltb, if◌then◌else◌, ◌<◌, ==_iff, ◌+◌, ◌-◌, ◌*◌, ◌/◌, ◌%◌, ◌≤◌, ◌≡◌,
  refl, sym, ◌∙◌, [], ◌∷◌, ◌++◌, arith, inl, inr, ◌==◌, length, Bool-cases, append-nil,
  append_assoc, length-append,
}
use breeze_js.Bytes.{Bytes, IsBytes}
use breeze_js.Base64.{char_at, encode, pad, btoa}
use breeze_js.Base64.RoundTrip.{equals, encode_group, encode_one, encode_two}
use breeze_js.Base64.Alphabet.{holds_under, holds_under_sound}
use breeze_js.Base64.Shape.{length-encode}

-- The alphabet of the RFC, table 1: A to Z, a to z, 0 to 9, and "+" and "/" for 62 and 63.
abbrev pub alphabet : ℕ → ℕ
alphabet n =
    if ltb n 26
    then b'A' + n
    else if ltb n 52
    then b'a' + (n - 26)
    else if ltb n 62
    then b'0' + (n - 52)
    else if n == 62
    then b'+'
    else b'/'

is_rfc_char : ℕ → Bool
is_rfc_char n = char_at n == alphabet n

rfc_table : holds_under is_rfc_char 64 ≡ true
unfolding is_rfc_char holds_under char_at
rfc_table = refl

-- The table of the code is that of the RFC.
char_at_lem : (n : ℕ) → n < 64 → char_at n ≡ alphabet n
unfolding is_rfc_char
char_at_lem n h =
    (==_iff (char_at n) (alphabet n)).0 (holds_under_sound is_rfc_char 64 rfc_table n h)

-- The encoding of the RFC.
unfoldable pub base64 : Bytes → Bytes
base64 [] = []
base64 (a ∷ []) = alphabet (a / 4) ∷ alphabet (a % 4 * 16) ∷ b'=' ∷ b'=' ∷ []
base64 (a ∷ b ∷ []) =
    alphabet (a / 4) ∷ alphabet (a % 4 * 16 + b / 16) ∷ alphabet (b % 16 * 4) ∷ b'=' ∷ []
base64 (a ∷ b ∷ c ∷ s) =
    alphabet (a / 4)
    ∷ alphabet (a % 4 * 16 + b / 16)
    ∷ alphabet (b % 16 * 4 + c / 64)
    ∷ alphabet (c % 64)
    ∷ base64 s

-- How many "=" stand behind `n` bytes.
abbrev missing : ℕ → ℕ
missing n = (3 - n % 3) % 3

-- Two groups of four are equal in their parts.
group_of :
    {a b c d a' b' c' d' : ℕ} {s t : Bytes}
    → a ≡ a'
    → b ≡ b'
    → c ≡ c'
    → d ≡ d'
    → s ≡ t
    → (a ∷ b ∷ c ∷ d ∷ s) ≡ (a' ∷ b' ∷ c' ∷ d' ∷ t)
group_of p q r u v = cc

encode-base64 :
    (val : ℕ) (s : Bytes) → IsBytes s → encode val 0 s ++ equals (missing (length s)) ≡ base64 s
unfolding base64
encode-base64 val [] h = unfold encode in refl
encode-base64 val (a ∷ []) h = rw (encode_one val a h.0) (
    group_of (char_at_lem (a / 4) (omega (arith, h.0)))
      (char_at_lem (a % 4 * 16) (omega (arith, h.0))) refl refl refl)
encode-base64 val (a ∷ b ∷ []) h = rw (encode_two val a b h.0 h.1.0) (
    group_of (char_at_lem (a / 4) (omega (arith, h.0)))
      (char_at_lem (a % 4 * 16 + b / 16) (omega (arith, h.1.0)))
      (char_at_lem (b % 16 * 4) (omega arith)) refl refl)
encode-base64 val (a ∷ b ∷ c ∷ s) h =
    let (val', e) = encode_group val a b c s h.0 h.1.0 h.1.1.0 in
    let m : missing (length (a ∷ b ∷ c ∷ s)) ≡ missing (length s) = omega arith in
    rw (e, m)
      (group_of (char_at_lem (a / 4) (omega (arith, h.0)))
        (char_at_lem (a % 4 * 16 + b / 16) (omega (arith, h.1.0)))
        (char_at_lem (b % 16 * 4 + c / 64) (omega (arith, h.1.1.0)))
        (char_at_lem (c % 64) (omega arith)) (encode-base64 val' s h.1.1.1))

-- Three rounds of the padding fill up the last group of four.
pad_lem :
    (fuel k : ℕ) (out : Bytes)
    → (length out + k) % 4 ≡ 0
    → k ≤ 3
    → k ≤ fuel
    → pad fuel out ≡ out ++ equals k
unfolding pad
pad_lem zero zero out h hk hf = sym (append-nil out)
pad_lem zero (suc k) out h hk hf = absurd (omega arith)
pad_lem (suc fuel) zero out h hk hf = elim (Bool-cases (length out % 4 == 0)) [
  | inl full ↦ rw full (sym (append-nil out))
  | inr short ↦ absurd (ground arith)
]
pad_lem (suc fuel) (suc k) out h hk hf = elim (Bool-cases (length out % 4 == 0)) [
  | inl full ↦ absurd (ground arith)
  | inr short ↦ rw short (
      pad_lem fuel k (out ++ b'=' ∷ []) (omega (arith, length-append out (b'=' ∷ []))) (omega arith)
        (omega arith)
      ∙ append_assoc out (b'=' ∷ []) (equals k))
]

-- btoa writes what RFC 4648 prescribes for every string of bytes, in its alphabet.
pub btoa-base64 : (s : Bytes) → IsBytes s → btoa s ≡ base64 s
unfolding btoa
btoa-base64 s h =
    pad_lem 3 (missing (length s)) (encode 0 0 s) (omega (arith, length-encode 0 s h)) (omega arith)
      (omega arith)
    ∙ encode-base64 0 s h
