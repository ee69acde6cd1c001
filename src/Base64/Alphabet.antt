-- ===== src/Base64/Alphabet.antt =====
-- The 64 characters: `char_at` and `index_of` are inverse on them.
use breeze_js.Prelude.{
  ℕ, zero, suc, ◌<◌, ◌≡◌, refl, Bool, true, false, if◌then◌else◌, ◌&&◌, not, arith, ◌⊎◌, inl, inr,
  ltb, ◌==◌,
}
use breeze_js.Bytes.{is_space}
use breeze_js.Base64.{char_at, index_of}

unfoldable pub holds_under : (ℕ → Bool) → ℕ → Bool
holds_under test zero = true
holds_under test (suc bound) = if test bound then holds_under test bound else false

nat_split : (bound i : ℕ) → i < suc bound → (i ≡ bound) ⊎ (i < bound)
nat_split bound i below = omega arith

pub holds_under_sound :
    (test : ℕ → Bool) (bound : ℕ)
    → holds_under test bound ≡ true
    → (i : ℕ) → i < bound
    → test i ≡ true
unfolding holds_under
holds_under_sound test zero found i below = absurd (omega arith)
holds_under_sound test (suc bound) found i below =
    let earlier = holds_under_sound test bound in
    elim (nat_split bound i below) [
      | inl e ↦ rw e (ground arith)
      | inr lower ↦ ground (arith, earlier (ground arith) i lower)
    ]

abbrev is_good : ℕ → Bool
is_good i =
    index_of (char_at i) == i
    && not (char_at i == b'=')
    && not (is_space (char_at i))
    && ltb (char_at i) 256

is_good_table : holds_under is_good 64 ≡ true
unfolding holds_under char_at index_of
is_good_table = refl

pub char_at_good :
    (i : ℕ)
    → i < 64
    → (index_of (char_at i) ≡ i)
      × ((char_at i == b'=') ≡ false)
      × (is_space (char_at i) ≡ false)
      × (char_at i < 256)
char_at_good i h = let t = holds_under_sound is_good 64 is_good_table i h in ground arith
