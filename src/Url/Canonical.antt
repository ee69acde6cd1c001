-- ===== src/Url/Canonical.antt =====
-- What the constructor makes of a string that the pattern matches, and the calls that ask whether
-- it does.
use breeze_js.Prelude.{
  ℕ, ◌≡◌, refl, ap, ◌↔◌, inl, inr, [], ◌∷◌, ◌++◌, Option, none, some, Option-cases, is_empty,
}
use breeze_js.Prelude.Result.{throws}
use breeze_js.Bytes.{Bytes, codes}
use breeze_js.Url.{Store}
use breeze_js.Url.Parser.{
  Captures, Groups, IsMatch, Nonempty, text, scheme_text, parse, can_parse, or_null,
}
use breeze_js.Url.Parsed.{construct-some, construct-none}

-- A mark with nothing behind it is dropped.
abbrev pub drop_empty : Option Bytes → Option Bytes
drop_empty none = none
drop_empty (some []) = none
drop_empty (some (c ∷ cs)) = some (c ∷ cs)

-- The URL that href shows: an empty query or fragment has lost its mark.
abbrev pub normal : Groups → Groups
normal g = record g { query = drop_empty g.query; fragment = drop_empty g.fragment }

-- A string with no scheme gets the protocol ":".
abbrev pub missing_scheme : Option Bytes → Bytes
missing_scheme none = codes ":"
missing_scheme (some s) = []

scheme_text-append : (s : Option Bytes) (c : ℕ) (r : Bytes) → Nonempty (scheme_text s ++ (c ∷ r))
scheme_text-append none c r = refl
scheme_text-append (some []) c r = refl
scheme_text-append (some (d ∷ ds)) c r = refl

text-Nonempty : (g : Groups) → Nonempty (text g)
text-Nonempty g = scheme_text-append g.scheme b'/' _

module _ (match : Bytes → Option Captures)
    (sound : (s : Bytes) (c : Captures) → match s ≡ some c → IsMatch s c) where
  -- For a matcher that gives only captures of the pattern: canParse throws, whatever it is asked
  -- about, since it constructs a URL from the empty string first, which the pattern never matches.
  pub can_parse_throws :
      (u : ℕ) (s : Bytes) (m : Store) → can_parse match u s m ≡ throws (codes "Failed to parse URL")
  unfolding can_parse
  can_parse_throws u s m = elim (Option-cases (match [])) [
    | inl miss ↦ rw (construct-none match u [] m miss, can_parse)
    | inr (c, hit) ↦
        let (g, inside, whole, caught) = sound [] c hit in
        cc (ap (is_empty {A = ℕ}) whole, text-Nonempty g)
  ]

-- URL::parse gives null exactly for the strings that the pattern does not match.
pub parse-eq-none_iff :
    (match : Bytes → Option Captures) (u : ℕ) (s : Bytes) (m : Store)
    → (parse match u s m ≡ none) ↔ (match s ≡ none)
unfolding parse
parse-eq-none_iff match u s m = elim (Option-cases (match s)) [
  | inl miss ↦ (λ _. miss, λ _. rw (construct-none match u s m miss, parse))
  | inr (c, hit) ↦ (λ e. cc (ap or_null (construct-some match u s c m hit)), λ e. cc)
]
