-- ===== src/Query/RoundTrip.antt =====
-- Parsing what `toString` has written.
use breeze_js.Prelude.{
  ℕ, ◌≡◌, refl, ap, ◌∙◌, false, List, [], ◌∷◌, ◌++◌, none, some, arith, ◌==◌, All, append_assoc,
}
use breeze_js.Bytes.{Bytes, IsBytes}
use breeze_js.Percent.{percent_encode}
use breeze_js.Percent.RoundTrip.{
  IsEncoded, percent_decode-percent_encode, percent_encode-IsEncoded, IsEncoded-ne_separator,
}
use breeze_js.Query.{Pair, cut, next_turn, parse_pair, parse_query_string, print_pair, to_string}
use breeze_js.Query.Fuel.{parse_query_string_lem}

-- Both parts are byte strings.
abbrev pub IsBytePair : Pair → Type 0
IsBytePair p = IsBytes p.0 × IsBytes p.1

-- No `c` stands in it.
abbrev pub Lacks : ℕ → Bytes → Type 0
Lacks c = All (λ x. (x == c) ≡ false)

cut-append : (c : ℕ) (s rest : Bytes) → Lacks c s → cut c (s ++ (c ∷ rest)) ≡ (s, some rest)
unfolding cut
cut-append c [] rest h = ground arith
cut-append c (x ∷ s) rest h = rw (h.0, cut-append c s rest h.1)

cut-none : (c : ℕ) (s : Bytes) → Lacks c s → cut c s ≡ (s, none)
unfolding cut
cut-none c [] h = refl
cut-none c (x ∷ s) h = rw (h.0, cut-none c s h.1)

Lacks-append : (c : ℕ) (s t : Bytes) → Lacks c s → Lacks c t → Lacks c (s ++ t)
Lacks-append c [] t hs ht = ht
Lacks-append c (x ∷ s) t hs ht = (hs.0, Lacks-append c s t hs.1 ht)

-- An encoded string holds neither separator.
Lacks-of_encoded : (s : Bytes) → All IsEncoded s → Lacks b'&' s × Lacks b'=' s
Lacks-of_encoded [] h = (tt, tt)
Lacks-of_encoded (c ∷ s) h =
    let n = IsEncoded-ne_separator c h.0 in
    let (a, b) = Lacks-of_encoded s h.1 in ((n.0, a), (n.1, b))

Lacks-percent_encode :
    (s : Bytes) → IsBytes s → Lacks b'&' (percent_encode s) × Lacks b'=' (percent_encode s)
Lacks-percent_encode s h = Lacks-of_encoded (percent_encode s) (percent_encode-IsEncoded s h)

Lacks-print_pair : (p : Pair) → IsBytePair p → Lacks b'&' (print_pair p)
unfolding print_pair
Lacks-print_pair (name, value) h =
    Lacks-append b'&' (percent_encode name) (b'=' ∷ percent_encode value)
      (Lacks-percent_encode name h.0).0 (refl, (Lacks-percent_encode value h.1).0)

parse_pair-print_pair : (p : Pair) → IsBytePair p → parse_pair (print_pair p) ≡ p
unfolding print_pair parse_pair
parse_pair-print_pair (name, value) h = rw (
  cut-append b'=' (percent_encode name) (percent_encode value) (Lacks-percent_encode name h.0).1,
  percent_decode-percent_encode name h.0,
  percent_decode-percent_encode value h.1,
)

-- A printed pair is not empty, so the loop takes a turn for it.
parse_cons :
    (s t : Bytes)
    → parse_query_string (s ++ (b'=' ∷ t))
      ≡ parse_pair (cut b'&' (s ++ (b'=' ∷ t))).0
        ∷ next_turn parse_query_string (cut b'&' (s ++ (b'=' ∷ t))).1
parse_cons [] t = parse_query_string_lem b'=' t
parse_cons (x ∷ s) t = parse_query_string_lem x (s ++ (b'=' ∷ t))

print_pair_lem : (p : Pair) → print_pair p ≡ percent_encode p.0 ++ (b'=' ∷ percent_encode p.1)
unfolding print_pair
print_pair_lem p = refl

to_string-cons :
    (p q : Pair) (ps : List Pair)
    → to_string (p ∷ q ∷ ps) ≡ print_pair p ++ (b'&' ∷ to_string (q ∷ ps))
unfolding to_string
to_string-cons p q ps = refl

parse_last : (p : Pair) → IsBytePair p → parse_query_string (print_pair p) ≡ p ∷ []
parse_last p h =
    ap parse_query_string (print_pair_lem p)
    ∙ parse_cons (percent_encode p.0) (percent_encode p.1)
    ∙ rw (← print_pair_lem p) (
        rw (cut-none b'&' (print_pair p) (Lacks-print_pair p h))
          (ap (λ q. q ∷ []) (parse_pair-print_pair p h)))

parse_first :
    (p : Pair) (t : Bytes)
    → IsBytePair p
    → parse_query_string (print_pair p ++ (b'&' ∷ t)) ≡ p ∷ parse_query_string t
parse_first p t h =
    let e : print_pair p ++ (b'&' ∷ t)
        ≡ percent_encode p.0 ++ (b'=' ∷ (percent_encode p.1 ++ (b'&' ∷ t))) =
      unfold print_pair in
      append_assoc (percent_encode p.0) (b'=' ∷ percent_encode p.1) (b'&' ∷ t) in
    ap parse_query_string e
    ∙ parse_cons (percent_encode p.0) (percent_encode p.1 ++ (b'&' ∷ t))
    ∙ rw (← e) (
        rw (cut-append b'&' (print_pair p) t (Lacks-print_pair p h))
          (ap (λ q. q ∷ parse_query_string t) (parse_pair-print_pair p h)))

-- Parsing the text form of any list of pairs of byte strings gives the list back.
pub parse_query_string-to_string :
    (ps : List Pair) → All IsBytePair ps → parse_query_string (to_string ps) ≡ ps
parse_query_string-to_string [] h = unfold to_string parse_query_string in refl
parse_query_string-to_string (p ∷ []) h = unfold to_string in parse_last p h.0
parse_query_string-to_string (p ∷ q ∷ ps) h =
    ap parse_query_string (to_string-cons p q ps)
    ∙ parse_first p (to_string (q ∷ ps)) h.0
    ∙ ap (◌∷◌ p) (parse_query_string-to_string (q ∷ ps) h.1)
