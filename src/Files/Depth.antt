-- ===== src/Files/Depth.antt =====
-- When `readdirSync` returns a list.
use breeze_js.Prelude.{
  ℕ, zero, suc, ◌<◌, ◌≡◌, refl, ◌∙◌, ◌⊎◌, inl, inr, Bool, true, false, not, ◌&&◌, List, [], ◌∷◌,
  some, arith, Bool-cases,
}
use mathlib.Core.List.{Memᴰ}
use mathlib.Core.List.Memᴰ.{head, tail}
use breeze_js.Prelude.Result.{Result, ok, throws}
use breeze_js.Bytes.{Bytes}
use breeze_js.Files.{
  Entry, Fs, ReadDirOptions, refuses, iterate, is_directory, sub_path, shows, join_names, entered,
  read_entries, readdir_sync,
}
use breeze_js.Files.Listed.{readdir_sync-some}

-- The directories under a directory, also those behind links, have a smaller rank: no link leads
-- back up.
abbrev pub IsRanked : Fs → (ℕ → ℕ) → Type 0
IsRanked fs rank =
    (i : ℕ) (es : List Entry)
    → iterate fs i ≡ some es
    → (d : Bytes) (j : ℕ) → Memᴰ (d, j) es
    → is_directory fs j ≡ some true
    → rank j < rank i

IsOk : Result (List Bytes) → Type 0
IsOk r = (l : List Bytes) × (r ≡ ok l)

-- The system refuses no status, and every directory can be opened.
pub record IsReadable (fs : Fs) : Type 0 where
  pub known : (i : ℕ) → refuses (fs i) ≡ false
  pub has_status : (i : ℕ) → (is_directory fs i ≡ some true) ⊎ (is_directory fs i ≡ some false)
  pub opens : (i : ℕ) → is_directory fs i ≡ some true → (es : List Entry) × (iterate fs i ≡ some es)

join_names-IsOk :
    (shown : Bool) (name : Bytes) (sub rest : Result (List Bytes))
    → IsOk sub
    → IsOk rest
    → IsOk (join_names shown name sub rest)
unfolding IsOk
join_names-IsOk shown name (ok s) (ok r) p q = (_, refl)
join_names-IsOk shown name (throws e) rest p q = cc p.1
join_names-IsOk shown name (ok s) (throws e) p q = cc q.1

and_no : (b : Bool) → (not b && false) ≡ false
and_no b = ground arith

module _ (what : Bytes → Bytes) (fs : Fs) (readable : IsReadable fs) (o : ReadDirOptions) where
  entered-IsOk :
      (call : Bytes → ℕ → Result (List Bytes)) (path : Bytes) (e : Entry)
      → (is_directory fs e.1 ≡ some true → IsOk (call (sub_path path e.0) e.1))
      → IsOk (entered what fs o call path e)
  unfolding entered IsOk
  entered-IsOk call path e h = elim (Bool-cases o.recursive) [
    | inr flat ↦ rw (entered, readable.known e.1, and_no, flat) ([], refl)
    | inl deep ↦ elim (readable.has_status e.1) [
      | inl dir ↦ rw (entered, readable.known e.1, and_no, deep, dir) (h dir)
      | inr other ↦ rw (entered, readable.known e.1, and_no, deep, other) ([], refl)
    ]
  ]

  read_entries-IsOk :
      (call : Bytes → ℕ → Result (List Bytes)) (path : Bytes) (es : List Entry)
      → ((p d : Bytes) (j : ℕ) → Memᴰ (d, j) es → is_directory fs j ≡ some true → IsOk (call p j))
      → IsOk (read_entries what fs o call path es)
  unfolding read_entries IsOk
  read_entries-IsOk call path [] h = ([], refl)
  read_entries-IsOk call path (e ∷ es) h =
      join_names-IsOk (shows o fs e.1) e.0 _ _
        (entered-IsOk call path e (λ dir. h (sub_path path e.0) e.0 e.1 (head refl) dir))
        (read_entries-IsOk call path es (λ p d j m. h p d j (tail m)))

  -- The recursion ends: if the directories under each directory have a smaller rank, also behind
  -- links, and all of them and every status can be read, then a call at a directory whose rank is
  -- below the depth that paths may have returns a list.
  pub readdir_sync_total :
      (rank : ℕ → ℕ) (depth : ℕ) (path : Bytes) (i : ℕ)
      → IsRanked fs rank
      → is_directory fs i ≡ some true
      → rank i < depth
      → (l : List Bytes) × (readdir_sync what fs o depth path i ≡ ok l)
  unfolding IsOk
  readdir_sync_total rank zero path i ranked dir h = absurd (omega arith)
  readdir_sync_total rank (suc depth) path i ranked dir h =
      let (es, found) = readable.opens i dir in
      let (l, e) = read_entries-IsOk (readdir_sync what fs o depth) path es (λ p d j m k.
        readdir_sync_total rank depth p j ranked k (omega (arith, ranked i es found d j m k))) in
      (l, readdir_sync-some fs o what depth path i es found ∙ e)
