-- ===== src/Base64/Shape.antt =====
-- The length of btoa's output.
use breeze_js.Prelude.{
  ℕ, zero, suc, ◌+◌, ◌-◌, ◌*◌, ◌/◌, ◌%◌, ◌≤◌, ◌≡◌, refl, [], ◌∷◌, ◌++◌, arith, inl, inr, ◌==◌,
  length, length-append, Bool-cases,
}
use breeze_js.Bytes.{Bytes, IsBytes}
use breeze_js.Base64.{encode, pad, btoa}
use breeze_js.Base64.RoundTrip.{encode_group, encode_one, encode_two}

-- Without padding: four characters for three bytes, and one more than the bytes that are left.
pub length-encode :
    (val : ℕ) (s : Bytes) → IsBytes s → length (encode val 0 s) ≡ (length s * 4 + 2) / 3
length-encode val [] h = unfold encode in refl
length-encode val (a ∷ []) h = rw (encode_one val a h.0)
length-encode val (a ∷ b ∷ []) h = rw (encode_two val a b h.0 h.1.0)
length-encode val (a ∷ b ∷ c ∷ s) h =
    let (v', e) = encode_group val a b c s h.0 h.1.0 h.1.1.0 in
    rw e (omega (arith, length-encode v' s h.1.1.1))

-- Three rounds fill up a length that is no multiple of four but for one character.
length-pad :
    (fuel : ℕ) (out : Bytes)
    → (4 - length out % 4) % 4 ≤ fuel
    → length (pad fuel out) ≡ (length out + 3) / 4 * 4
unfolding pad
length-pad zero out h = omega arith
length-pad (suc fuel) out h = elim (Bool-cases (length out % 4 == 0)) [
  | inl done ↦ rw done (ground arith)
  | inr more ↦
      rw more (ground (arith, length-append out (b'=' ∷ []), length-pad fuel (out ++ b'=' ∷ [])))
]

-- btoa writes four characters for every three bytes or part of three bytes.
length-btoa : (s : Bytes) → IsBytes s → length (btoa s) ≡ (length s + 2) / 3 * 4
unfolding btoa
length-btoa s h =
    let e = length-encode 0 s h in omega (arith, e, length-pad 3 (encode 0 0 s) (omega arith))
