-- ===== src/Files/Errors.antt =====
-- When `readdirSync` throws because the system refuses something.
use breeze_js.Prelude.{
  ℕ, zero, suc, ◌≡◌, sym, ap, ◌∙◌, inl, inr, true, not, ◌&&◌, List, [], ◌∷◌, none, some, Bool-cases,
}
use mathlib.Core.List.{Memᴰ}
use mathlib.Core.List.Memᴰ.{head, tail, not-nil}
use breeze_js.Prelude.Result.{Result, ok, throws, Result-cases}
use breeze_js.Bytes.{Bytes}
use breeze_js.Files.{
  Entry, Fs, ReadDirOptions, refuses, iterate, is_directory, sub_path, shows, entered, read_entries,
  readdir_sync,
}
use breeze_js.Files.Listed.{join_names-inv, entered-cases, readdir_sync-some, readdir_sync-none}

module _ (fs : Fs) (o : ReadDirOptions) where
  -- A directory that cannot be opened; or, with `recursive`, one
  -- with an entry whose status is refused, or that is or links to such a directory.
  pub data IsStuck : ℕ → Type 0 where
    unopened : {i : ℕ} → iterate fs i ≡ none → IsStuck i
    unknown :
        {i : ℕ} {es : List Entry} {d : Bytes} {j : ℕ}
        → iterate fs i ≡ some es
        → Memᴰ (d, j) es
        → o.recursive ≡ true
        → is_directory fs j ≡ none
        → IsStuck i
    below :
        {i : ℕ} {es : List Entry} {d : Bytes} {j : ℕ}
        → iterate fs i ≡ some es
        → Memᴰ (d, j) es
        → o.recursive ≡ true
        → is_directory fs j ≡ some true
        → IsStuck j
        → IsStuck i

  module _ (what : Bytes → Bytes) where
    entered-unknown :
        (call : Bytes → ℕ → Result (List Bytes)) (path : Bytes) (e : Entry) (s : List Bytes)
        → o.recursive ≡ true
        → is_directory fs e.1 ≡ none
        → entered what fs o call path e ≡ ok s
        → ⊥
    unfolding entered
    entered-unknown call path e s deep gone h =
        elim (Bool-cases (not o.follow_symlinks && refuses (fs e.1))) [
          | inl refused ↦ cc (rw (entered, refused) at h)
          | inr known ↦ cc (rw (entered, known, deep, gone) at h)
        ]

    -- In a loop that goes through, every entry has.
    entries-entered :
        (call : Bytes → ℕ → Result (List Bytes)) (path d : Bytes) (j : ℕ) (es : List Entry)
        (l : List Bytes)
        → Memᴰ (d, j) es
        → read_entries what fs o call path es ≡ ok l
        → (s : List Bytes) × (entered what fs o call path (d, j) ≡ ok s)
    unfolding read_entries
    entries-entered call path d j [] l m h = absurd (not-nil m)
    entries-entered call path d j (e ∷ es) l (head q) h =
        let (s, r, hs, hr, joined) = join_names-inv fs o (shows o fs e.1) e.0 _ _ l h in
        (s, ap (entered what fs o call path) q ∙ hs)
    entries-entered call path d j (e ∷ es) l (tail m) h =
        let (s, r, hs, hr, joined) = join_names-inv fs o (shows o fs e.1) e.0 _ _ l h in
        entries-entered call path d j es r m hr

    never_returns :
        {i : ℕ} (depth : ℕ) (path : Bytes) (l : List Bytes)
        → IsStuck i
        → readdir_sync what fs o depth path i ≡ ok l
        → ⊥
    unfolding readdir_sync
    never_returns zero path l stuck h = cc
    never_returns {i} (suc depth) path l (unopened e) h =
        cc (sym (readdir_sync-none fs o what depth path i e) ∙ h)
    never_returns {i} (suc depth) path l (unknown {es = es} {d = d} {j = j} e m deep gone) h =
        let (s, entry) =
          entries-entered (readdir_sync what fs o depth) path d j es l m
            (sym (readdir_sync-some fs o what depth path i es e) ∙ h) in
        entered-unknown (readdir_sync what fs o depth) path (d, j) s deep gone entry
    never_returns {i} (suc depth) path l (below {es = es} {d = d} {j = j} e m deep dir stuck) h =
        let call = readdir_sync what fs o depth in
        let (s, entry) =
          entries-entered call path d j es l m
            (sym (readdir_sync-some fs o what depth path i es e) ∙ h) in
        elim (entered-cases fs o what call path (d, j) s entry) [
          | inl (r, k, called) ↦ never_returns depth (sub_path path d) s stuck called
          | inr (other, empty) ↦ absurd (other (deep, dir))
        ]

    -- A call throws, at any depth, if the directory cannot be opened; and, with `recursive`, if the
    -- system refuses the status of an entry, or the call for an entry that is or links to a directory
    -- throws for such a reason, however deep below. No such error is passed over.
    pub readdir_sync-throws :
        (depth : ℕ) (path : Bytes) (i : ℕ)
        → IsStuck i
        → (e : Bytes) × (readdir_sync what fs o depth path i ≡ throws e)
    readdir_sync-throws depth path i stuck =
        elim (Result-cases (readdir_sync what fs o depth path i)) [
          | inl (l, h) ↦ absurd (never_returns depth path l stuck h)
          | inr thrown ↦ thrown
        ]
