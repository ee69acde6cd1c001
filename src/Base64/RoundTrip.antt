-- ===== src/Base64/RoundTrip.antt =====
-- atob after btoa: the groups of three bytes, the two shorter groups at the end, and the padding.
use breeze_js.Prelude.{
  ℕ, zero, suc, ◌+◌, ◌-◌, ◌*◌, ◌/◌, ◌%◌, ◌^◌, ◌<◌, ◌≡◌, refl, sym, [], ◌∷◌, ◌++◌, arith, inl, inr,
  append-nil, append_assoc, leb, ◌==◌, if◌then◌else◌, length, Bool-cases,
}
use breeze_js.Bytes.{Bytes, IsBytes}
use breeze_js.Base64.{int_mod, char_at, encode, pad, btoa, decode, atob}
use breeze_js.Base64.Alphabet.{char_at_good}

abbrev pub equals : ℕ → Bytes
equals zero = []
equals (suc k) = b'=' ∷ equals k

-- Three bytes, at no bits held, give four characters and leave no bit.
pub encode_group :
    (val a b c : ℕ) (rest : Bytes)
    → a < 256
    → b < 256
    → c < 256
    → (val' : ℕ) × (encode val 0 (a ∷ b ∷ c ∷ rest)
        ≡ char_at (a / 4)
          ∷ char_at (a % 4 * 16 + b / 16)
          ∷ char_at (b % 16 * 4 + c / 64)
          ∷ char_at (c % 64)
          ∷ encode val' 0 rest)
unfolding encode
encode_group val a b c rest ha hb hc = (
  (((val * 2 ^ 8 + a) % int_mod * 2 ^ 8 + b) % int_mod * 2 ^ 8 + c) % int_mod,
  let p : (val * 256 + a) % int_mod / 4 % 64 ≡ a / 4 = omega arith in
      let q : ((val * 256 + a) % int_mod * 256 + b) % int_mod / 16 % 64 ≡ a % 4 * 16 + b / 16 =
        omega arith in
      let r : (((val * 256 + a) % int_mod * 256 + b) % int_mod * 256 + c) % int_mod / 64 % 64
          ≡ b % 16 * 4 + c / 64 =
        omega arith in
      let s : (((val * 256 + a) % int_mod * 256 + b) % int_mod * 256 + c) % int_mod / 1 % 64
          ≡ c % 64 =
        omega arith in
      rw (p, q, r, s),
)

-- One character of the alphabet.
decode_char :
    (val held d : ℕ) (cs : Bytes)
    → d < 64
    → decode val held (char_at d ∷ cs) ≡ (
        let val' = (val * 2 ^ 6 + d) % int_mod in
        let kept = decode val' (held + 6) cs in
        let pushed = val' / 2 ^ (held + 6 - 8) % 256 ∷ decode val' (held + 6 - 8) cs in
        if leb 8 (held + 6) then pushed else kept)
unfolding decode
decode_char val held d cs h = let g = char_at_good d h in rw (g.1, g.2, g.0)

-- Four characters, at no bits held, give three bytes and leave no bit.
decode_group :
    (val d e f g : ℕ) (rest : Bytes)
    → d < 64
    → e < 64
    → f < 64
    → g < 64
    → (val' : ℕ) × (decode val 0 (char_at d ∷ char_at e ∷ char_at f ∷ char_at g ∷ rest)
        ≡ (d * 4 + e / 16) ∷ (e % 16 * 16 + f / 4) ∷ (f % 4 * 64 + g) ∷ decode val' 0 rest)
decode_group val d e f g rest hd he hf hg =
    let v1 = (val * 2 ^ 6 + d) % int_mod in
    let v2 = (v1 * 2 ^ 6 + e) % int_mod in
    let v3 = (v2 * 2 ^ 6 + f) % int_mod in
    let v4 = (v3 * 2 ^ 6 + g) % int_mod in
    let p : v2 / 16 % 256 ≡ d * 4 + e / 16 = omega arith in
    let q : v3 / 4 % 256 ≡ e % 16 * 16 + f / 4 = omega arith in
    let r : v4 / 1 % 256 ≡ f % 4 * 64 + g = omega arith in
    (
      v4,
      rw (
        decode_char val 0 d _ hd,
        decode_char v1 6 e _ he,
        decode_char v2 4 f _ hf,
        decode_char v3 2 g _ hg,
        p,
        q,
        r,
      ),
    )

-- The last one or two bytes, behind whole groups.
pub encode_one :
    (val a : ℕ) → a < 256 → encode val 0 (a ∷ []) ≡ char_at (a / 4) ∷ char_at (a % 4 * 16) ∷ []
unfolding encode
encode_one val a ha =
    let v1 = (val * 256 + a) % int_mod in
    let p : v1 / 4 % 64 ≡ a / 4 = omega arith in
    let q : v1 * 256 % int_mod / 16 % 64 ≡ a % 4 * 16 = omega arith in rw (p, q)

pub encode_two :
    (val a b : ℕ)
    → a < 256
    → b < 256
    → encode val 0 (a ∷ b ∷ [])
      ≡ char_at (a / 4) ∷ char_at (a % 4 * 16 + b / 16) ∷ char_at (b % 16 * 4) ∷ []
unfolding encode
encode_two val a b ha hb =
    let v1 = (val * 256 + a) % int_mod in
    let v2 = (v1 * 256 + b) % int_mod in
    let p : v1 / 4 % 64 ≡ a / 4 = omega arith in
    let q : v2 / 16 % 64 ≡ a % 4 * 16 + b / 16 = omega arith in
    let r : v2 * 256 % int_mod / 64 % 64 ≡ b % 16 * 4 = omega arith in rw (p, q, r)

decode-equals : (val held k : ℕ) → decode val held (equals k) ≡ []
unfolding decode
decode-equals val held zero = refl
decode-equals val held (suc k) = refl

decode-encode_one :
    (val w k a : ℕ) → a < 256 → decode val 0 (encode w 0 (a ∷ []) ++ equals k) ≡ a ∷ []
decode-encode_one val w k a ha =
    let d = a / 4 in
    let e = a % 4 * 16 in
    let v1 = (val * 2 ^ 6 + d) % int_mod in
    let v2 = (v1 * 2 ^ 6 + e) % int_mod in
    let p : v2 / 16 % 256 ≡ a = omega arith in
    rw (
      encode_one w a ha,
      decode_char val 0 d _ (omega arith),
      decode_char v1 6 e _ (omega arith),
      p,
      decode-equals v2 4 k,
    )

decode-encode_two :
    (val w k a b : ℕ)
    → a < 256
    → b < 256
    → decode val 0 (encode w 0 (a ∷ b ∷ []) ++ equals k) ≡ a ∷ b ∷ []
decode-encode_two val w k a b ha hb =
    let d = a / 4 in
    let e = a % 4 * 16 + b / 16 in
    let f = b % 16 * 4 in
    let v1 = (val * 2 ^ 6 + d) % int_mod in
    let v2 = (v1 * 2 ^ 6 + e) % int_mod in
    let v3 = (v2 * 2 ^ 6 + f) % int_mod in
    let p : v2 / 16 % 256 ≡ a = omega arith in
    let q : v3 / 4 % 256 ≡ b = omega arith in
    rw (
      encode_two w a b ha hb,
      decode_char val 0 d _ (omega arith),
      decode_char v1 6 e _ (omega arith),
      decode_char v2 4 f _ (omega arith),
      p,
      q,
      decode-equals v3 2 k,
    )

-- Whatever bits are left of the characters before.
decode-encode : (val w k : ℕ) (s : Bytes) → IsBytes s → decode val 0 (encode w 0 s ++ equals k) ≡ s
decode-encode val w k [] h = unfold encode in decode-equals val 0 k
decode-encode val w k (a ∷ []) h = decode-encode_one val w k a h.0
decode-encode val w k (a ∷ b ∷ []) h = decode-encode_two val w k a b h.0 h.1.0
decode-encode val w k (a ∷ b ∷ c ∷ s) h =
    let (w', e) = encode_group w a b c s h.0 h.1.0 h.1.1.0 in
    let (v', d) =
      decode_group val (a / 4) (a % 4 * 16 + b / 16) (b % 16 * 4 + c / 64) (c % 64)
        (encode w' 0 s ++ equals k) (omega arith) (omega arith) (omega arith) (omega arith) in
    let ih = decode-encode v' w' k s h.1.1.1 in rw (e, d, ih) (ground arith)

pad-equals : (fuel : ℕ) (out : Bytes) → (k : ℕ) × (pad fuel out ≡ out ++ equals k)
unfolding pad
pad-equals zero out = (0, sym (append-nil out))
pad-equals (suc fuel) out =
    let (k, e) = pad-equals fuel (out ++ b'=' ∷ []) in
    elim (Bool-cases (length out % 4 == 0)) [
      | inl done ↦ (0, rw (done, append-nil))
      | inr more ↦ (suc k, rw (more, e, append_assoc))
    ]

-- atob reads back every byte string that btoa has written.
pub atob-btoa : (s : Bytes) → IsBytes s → atob (btoa s) ≡ s
unfolding atob btoa
atob-btoa s h = let (k, e) = pad-equals 3 (encode 0 0 s) in rw e (decode-encode 0 0 k s h)
