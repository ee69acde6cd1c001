-- ===== src/Files/Listed.antt =====
-- Which names `readdirSync` lists.
use breeze_js.Prelude.{
  ℕ, zero, suc, ◌≡◌, refl, subst, sym, ap, ◌∙◌, inl, inr, ◌↔◌, ◌⊎◌, not, Bool, true, false, ◌&&◌,
  List, [], ◌∷◌, ◌++◌, none, some, if◌then◌else◌, Bool-cases, Option-cases, some_injective,
}
use mathlib.Core.List.{Memᴰ}
use mathlib.Core.List.Memᴰ.{head, tail, append_left, append_right, append_cases, not-nil}
use breeze_js.Prelude.Result.{Result, ok, throws, ok_injective}
use breeze_js.Bytes.{Bytes}
use breeze_js.Files.{
  Entry, Fs, ReadDirOptions, iterate, is_directory, sub_path, read_error, refuses, entered, shows,
  join_names, read_entries, readdir_sync,
}
use breeze_js.Files.Shown.{true-ne-false, IsShown, shows-IsShown, IsShown-shows}

module _ (fs : Fs) (o : ReadDirOptions) where
  -- A name that is shown stands in the directory `i`, or, with `recursive`, in a directory that an
  -- entry of `i` is or links to, and so on.
  pub data IsListed (name : Bytes) : ℕ → Type 0 where
    own :
        {i : ℕ} {es : List Entry} {j : ℕ}
        → iterate fs i ≡ some es
        → Memᴰ (name, j) es
        → IsShown fs o j
        → IsListed name i
    below :
        {i : ℕ} {es : List Entry} {d : Bytes} {j : ℕ}
        → iterate fs i ≡ some es
        → Memᴰ (d, j) es
        → o.recursive ≡ true
        → is_directory fs j ≡ some true
        → IsListed name j
        → IsListed name i

  -- The same for the entries of one directory.
  data InEntries (name : Bytes) : List Entry → Type 0 where
    at_head :
        {e : Entry} {es : List Entry} → shows o fs e.1 ≡ true → name ≡ e.0 → InEntries name (e ∷ es)
    under_head :
        {e : Entry} {es : List Entry}
        → o.recursive ≡ true
        → is_directory fs e.1 ≡ some true
        → IsListed name e.1
        → InEntries name (e ∷ es)
    behind : {e : Entry} {es : List Entry} → InEntries name es → InEntries name (e ∷ es)

  InEntries-shown :
      (name : Bytes) (j : ℕ) (es : List Entry)
      → Memᴰ (name, j) es
      → IsShown fs o j
      → InEntries name es
  InEntries-shown name j [] m s = absurd (not-nil m)
  InEntries-shown name j (e ∷ es) (head q) s =
      at_head (subst (λ k. shows o fs k ≡ true) (ap (λ p. p.1) q) (IsShown-shows fs o j s))
        (ap (λ p. p.0) q)
  InEntries-shown name j (e ∷ es) (tail m) s = behind (InEntries-shown name j es m s)

  InEntries-below :
      (name d : Bytes) (j : ℕ) (es : List Entry)
      → Memᴰ (d, j) es
      → o.recursive ≡ true
      → is_directory fs j ≡ some true
      → IsListed name j
      → InEntries name es
  InEntries-below name d j [] m r i l = absurd (not-nil m)
  InEntries-below name d j (e ∷ es) (head q) r i l =
      let k = ap (λ p. p.1) q in
      under_head r (subst (λ n. is_directory fs n ≡ some true) k i) (subst (IsListed name) k l)
  InEntries-below name d j (e ∷ es) (tail m) r i l = behind (InEntries-below name d j es m r i l)

  InEntries-IsListed :
      (name : Bytes) (i : ℕ) (all es : List Entry)
      → iterate fs i ≡ some all
      → ((x : Entry) → Memᴰ x es → Memᴰ x all)
      → InEntries name es
      → IsListed name i
  InEntries-IsListed name i all [] h sub q = elim q [ ]
  InEntries-IsListed name i all (e ∷ es) h sub (at_head s q) =
      own h (subst (λ n. Memᴰ (n, e.1) all) (sym q) (sub e (head refl))) (shows-IsShown fs o e.1 s)
  InEntries-IsListed name i all (e ∷ es) h sub (under_head r d l) =
      below h (sub e (head refl)) r d l
  InEntries-IsListed name i all (e ∷ es) h sub (behind m) =
      InEntries-IsListed name i all es h (λ x q. sub x (tail q)) m

  IsListed-InEntries :
      (name : Bytes) (i : ℕ) (es : List Entry)
      → iterate fs i ≡ some es
      → IsListed name i
      → InEntries name es
  IsListed-InEntries name i es h (own {es = es'} {j = j} h' m s) =
      InEntries-shown name j es (subst (Memᴰ (name, j)) (some_injective (sym h' ∙ h)) m) s
  IsListed-InEntries name i es h (below {es = es'} {d = d} {j = j} h' m r k l) =
      InEntries-below name d j es (subst (Memᴰ (d, j)) (some_injective (sym h' ∙ h)) m) r k l

  -- What a join that goes through is made of.
  pub join_names-inv :
      (shown : Bool) (name : Bytes) (sub rest : Result (List Bytes)) (l : List Bytes)
      → join_names shown name sub rest ≡ ok l
      → (s : List Bytes) × (r : List Bytes) × (sub ≡ ok s)
        × (rest ≡ ok r)
        × (l ≡ (if shown then name ∷ [] else []) ++ (s ++ r))
  join_names-inv shown name (throws e) rest l h = cc
  join_names-inv shown name (ok s) (throws e) l h = cc
  join_names-inv shown name (ok s) (ok r) l h = (s, r, refl, refl, sym (ok_injective h))

  abbrev IsRight : (Bytes → ℕ → Result (List Bytes)) → Type 0
  IsRight call =
      (p : Bytes) (j : ℕ) (l : List Bytes)
      → call p j ≡ ok l
      → (name : Bytes) → Memᴰ name l ↔ IsListed name j

  -- The names of one entry: its own, where it is shown.
  Memᴰ-shown :
      (shown : Bool) (name own_name : Bytes)
      → Memᴰ name (if shown then own_name ∷ [] else [])
      → (shown ≡ true) × (name ≡ own_name)
  Memᴰ-shown true name own_name (head e) = (refl, e)
  Memᴰ-shown true name own_name (tail m) = absurd (not-nil m)
  Memᴰ-shown false name own_name m = absurd (not-nil m)

  -- One turn of the loop: the three parts of the joined list.
  Memᴰ-joined :
      (e : Entry) (es : List Entry) (s r : List Bytes) (name : Bytes)
      → Memᴰ name s ↔ ((o.recursive ≡ true) × (is_directory fs e.1 ≡ some true) × IsListed name e.1)
      → Memᴰ name r ↔ InEntries name es
      → Memᴰ name ((if shows o fs e.1 then e.0 ∷ [] else []) ++ (s ++ r)) ↔ InEntries name (e ∷ es)
  Memᴰ-joined e es s r name called rest = (
    λ m. elim (append_cases (if shows o fs e.1 then e.0 ∷ [] else []) m) [
      | inl here ↦ let q = Memᴰ-shown (shows o fs e.1) name e.0 here in at_head q.0 q.1
      | inr more ↦ elim (append_cases s more) [
        | inl sub ↦ let q = called.0 sub in under_head q.0 q.1 q.2
        | inr later ↦ behind (rest.0 later)
      ]
    ],
    λ q. in_joined q,
  )
    where
      in_joined :
          InEntries name (e ∷ es)
          → Memᴰ name ((if shows o fs e.1 then e.0 ∷ [] else []) ++ (s ++ r))
      in_joined (at_head shown same) = rw shown (head same)
      in_joined (under_head a b l) = append_right _ (append_left r (called.1 (a, b, l)))
      in_joined (behind m) = append_right _ (append_right s (rest.1 m))

  module _ (what : Bytes → Bytes) where
    -- What an entry adds, if it throws nothing.
    pub entered-cases :
        (call : Bytes → ℕ → Result (List Bytes)) (p : Bytes) (e : Entry) (s : List Bytes)
        → entered what fs o call p e ≡ ok s
        → ((o.recursive ≡ true)
            × (is_directory fs e.1 ≡ some true)
            × (call (sub_path p e.0) e.1 ≡ ok s))
          ⊎ (((o.recursive ≡ true) × (is_directory fs e.1 ≡ some true) → ⊥) × (s ≡ []))
    unfolding entered
    entered-cases call p e s h = elim (Bool-cases (not o.follow_symlinks && refuses (fs e.1))) [
      | inl refused ↦ cc (rw (entered, refused) at h)
      | inr known ↦ elim (Bool-cases o.recursive) [
        | inr flat ↦ inr (
          λ q. absurd (true-ne-false (sym q.0 ∙ flat)),
          sym (ok_injective (rw (entered, known, flat) at h)),
        )
        | inl deep ↦ elim (Option-cases (is_directory fs e.1)) [
          | inl unknown ↦ cc (rw (entered, known, deep, unknown) at h)
          | inr (true, dir) ↦ inl (deep, dir, rw (entered, known, deep, dir) at h)
          | inr (false, other) ↦ inr (
            λ q. absurd (true-ne-false (some_injective (sym q.1 ∙ other))),
            sym (ok_injective (rw (entered, known, deep, other) at h)),
          )
        ]
      ]
    ]

    entered-InEntries :
        (call : Bytes → ℕ → Result (List Bytes))
        → IsRight call
        → (p : Bytes) (e : Entry) (s : List Bytes) → entered what fs o call p e ≡ ok s
        → (name : Bytes)
        → Memᴰ name s
          ↔ ((o.recursive ≡ true) × (is_directory fs e.1 ≡ some true) × IsListed name e.1)
    entered-InEntries call right p e s h name = elim (entered-cases call p e s h) [
      | inl (deep, dir, called) ↦
          let (there, back) = right (sub_path p e.0) e.1 s called name in
          (λ m. (deep, dir, there m), λ q. back q.2)
      | inr (other, empty) ↦
          (λ m. absurd (not-nil (subst (Memᴰ name) empty m)), λ q. absurd (other (q.0, q.1)))
    ]

    read_entries-InEntries :
        (call : Bytes → ℕ → Result (List Bytes))
        → IsRight call
        → (path : Bytes) (es : List Entry) (l : List Bytes)
        → read_entries what fs o call path es ≡ ok l
        → (name : Bytes) → Memᴰ name l ↔ InEntries name es
    unfolding read_entries
    read_entries-InEntries call right path [] l h name = (
      λ m. absurd (not-nil (subst (Memᴰ name) (sym (ok_injective h)) m)),
      λ q. absurd (not_in_nil q),
    )
      where
        not_in_nil : InEntries name [] → ⊥
        not_in_nil q = elim q [ ]
    read_entries-InEntries call right path (e ∷ es) l h name =
        let (s, r, hs, hr, joined) = join_names-inv (shows o fs e.1) e.0 _ _ l h in
        subst (λ k. Memᴰ name k ↔ InEntries name (e ∷ es)) (sym joined)
          (Memᴰ-joined e es s r name (entered-InEntries call right path e s hs name)
            (read_entries-InEntries call right path es r hr name))

    pub readdir_sync-none :
        (depth : ℕ) (path : Bytes) (i : ℕ)
        → iterate fs i ≡ none
        → readdir_sync what fs o (suc depth) path i ≡ throws (read_error what path path)
    unfolding readdir_sync
    readdir_sync-none depth path i e = rw (e, readdir_sync) refl

    pub readdir_sync-some :
        (depth : ℕ) (path : Bytes) (i : ℕ) (es : List Entry)
        → iterate fs i ≡ some es
        → readdir_sync what fs o (suc depth) path i
          ≡ read_entries what fs o (readdir_sync what fs o depth) path es
    unfolding readdir_sync
    readdir_sync-some depth path i es e = rw (e, readdir_sync) refl

    -- A call that returns has listed a name exactly if it stands in the directory and is shown, or,
    -- with `recursive`, if it is so listed for a directory that an entry is or links to.
    pub readdir_sync-IsListed :
        (depth : ℕ) (path : Bytes) (i : ℕ) (l : List Bytes)
        → readdir_sync what fs o depth path i ≡ ok l
        → (name : Bytes) → Memᴰ name l ↔ IsListed name i
    unfolding readdir_sync
    readdir_sync-IsListed zero path i l h name = cc
    readdir_sync-IsListed (suc depth) path i l h name = elim (Option-cases (iterate fs i)) [
      | inl missing ↦ cc (sym (readdir_sync-none depth path i missing) ∙ h)
      | inr (es, found) ↦
          let (there, back) =
            read_entries-InEntries (readdir_sync what fs o depth)
              (λ p j l' h' n. readdir_sync-IsListed depth p j l' h' n) path es l
              (sym (readdir_sync-some depth path i es found) ∙ h) name in
          (
            λ m. InEntries-IsListed name i es es found (λ x q. q) (there m),
            λ q. back (IsListed-InEntries name i es found q),
          )
    ]
