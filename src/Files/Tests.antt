-- ===== src/Files/Tests.antt =====
-- A small file system, and the theorems at it.
use breeze_js.Prelude.{
  ℕ, zero, suc, ◌<◌, ◌≡◌, ◌↔◌, refl, sym, ap, subst, ◌⊎◌, inl, inr, true, false, List, [], ◌∷◌,
  none, some, arith, some_injective,
}
use mathlib.Core.List.{Memᴰ}
use mathlib.Core.List.Memᴰ.{head, tail, not-nil}
use breeze_js.Prelude.Result.{ok, throws}
use breeze_js.Bytes.{Bytes, codes}
use breeze_js.Files.{
  Entry, Fs, file, directory, symlink, ReadDirOptions, refuses, iterate, is_directory, entered,
  read_entries, readdir_sync,
}
use breeze_js.Files.Listed.{IsListed, readdir_sync-IsListed}
use breeze_js.Files.Errors.{unopened, below, readdir_sync-throws}
use breeze_js.Files.Depth.{IsReadable, IsRanked, readdir_sync_total}

-- 0 holds the file a, the directory sub, which holds b, and a link to it.
abbrev top : List Entry
top = (codes "a", 1) ∷ (codes "sub", 2) ∷ (codes "link", 3) ∷ []

abbrev inner : List Entry
inner = (codes "b", 1) ∷ []

abbrev disk : Fs
disk zero = directory (some top)
disk (suc zero) = file
disk (suc (suc zero)) = directory (some inner)
disk (suc (suc (suc zero))) = symlink (some 2)
disk (suc (suc (suc (suc n)))) = file

abbrev deep : ReadDirOptions
deep = record { recursive = true; follow_symlinks = false }

abbrev no_text : Bytes → Bytes
no_text path = []

abbrev found_names : List Bytes
found_names = codes "a" ∷ codes "sub" ∷ codes "b" ∷ codes "b" ∷ []

deep_runs : readdir_sync no_text disk deep 3 [] 0 ≡ ok found_names
unfolding readdir_sync read_entries entered is_directory iterate
deep_runs = refl

readdir_sync-IsListed_example : Memᴰ (codes "b") found_names ↔ IsListed disk deep (codes "b") 0
readdir_sync-IsListed_example =
    readdir_sync-IsListed disk deep no_text 3 [] 0 found_names deep_runs (codes "b")

abbrev rank : ℕ → ℕ
rank zero = 2
rank (suc zero) = 0
rank (suc (suc n)) = 1

disk-IsReadable : IsReadable disk
unfolding is_directory iterate
disk-IsReadable = record { known = disk-known; has_status = disk-has_status; opens = disk-opens }
  where
    disk-known : (i : ℕ) → refuses (disk i) ≡ false
    disk-known zero = refl
    disk-known (suc zero) = refl
    disk-known (suc (suc zero)) = refl
    disk-known (suc (suc (suc zero))) = refl
    disk-known (suc (suc (suc (suc n)))) = refl

    disk-has_status :
        (i : ℕ) → (is_directory disk i ≡ some true) ⊎ (is_directory disk i ≡ some false)
    disk-has_status zero = inl refl
    disk-has_status (suc zero) = inr refl
    disk-has_status (suc (suc zero)) = inl refl
    disk-has_status (suc (suc (suc zero))) = inl refl
    disk-has_status (suc (suc (suc (suc n)))) = inr refl

    disk-opens :
        (i : ℕ) → is_directory disk i ≡ some true → (es : List Entry) × (iterate disk i ≡ some es)
    disk-opens zero h = (top, refl)
    disk-opens (suc zero) h = cc (some_injective h)
    disk-opens (suc (suc zero)) h = (inner, refl)
    disk-opens (suc (suc (suc zero))) h = (inner, refl)
    disk-opens (suc (suc (suc (suc n)))) h = cc (some_injective h)

-- The directory sub cannot be opened: the call throws at its path.
abbrev locked : Fs
locked zero = directory (some top)
locked (suc zero) = file
locked (suc (suc n)) = directory none

locked_throws :
    readdir_sync no_text locked deep 3 (codes "d") 0
    ≡ throws (codes "Error reading directory 'd/sub': ")
unfolding readdir_sync read_entries entered is_directory iterate
locked_throws = refl

top-IsRanked : (d : Bytes) (j : ℕ) → Memᴰ (d, j) top → rank j < 2
top-IsRanked d j (head q) = subst (λ n. rank n < 2) (sym (ap (λ p. p.1) q)) (omega arith)
top-IsRanked d j (tail (head q)) = subst (λ n. rank n < 2) (sym (ap (λ p. p.1) q)) (omega arith)
top-IsRanked d j (tail (tail (head q))) =
    subst (λ n. rank n < 2) (sym (ap (λ p. p.1) q)) (omega arith)
top-IsRanked d j (tail (tail (tail m))) = absurd (not-nil m)

inner-IsRanked :
    (d : Bytes) (j : ℕ) → Memᴰ (d, j) inner → is_directory disk j ≡ some true → rank j < 1
inner-IsRanked d j (head q) k = subst (λ n. rank n < 1) (sym (ap (λ p. p.1) q)) (omega arith)
inner-IsRanked d j (tail m) k = absurd (not-nil m)

disk-IsRanked : IsRanked disk rank
unfolding iterate
disk-IsRanked zero es found d j m k =
    top-IsRanked d j (subst (Memᴰ (d, j)) (sym (some_injective found)) m)
disk-IsRanked (suc zero) es found d j m k = cc
disk-IsRanked (suc (suc zero)) es found d j m k =
    inner-IsRanked d j (subst (Memᴰ (d, j)) (sym (some_injective found)) m) k
disk-IsRanked (suc (suc (suc zero))) es found d j m k =
    inner-IsRanked d j (subst (Memᴰ (d, j)) (sym (some_injective found)) m) k
disk-IsRanked (suc (suc (suc (suc n)))) es found d j m k = cc

readdir_sync_total_example : (l : List Bytes) × (readdir_sync no_text disk deep 3 [] 0 ≡ ok l)
unfolding is_directory iterate
readdir_sync_total_example =
    readdir_sync_total no_text disk disk-IsReadable deep rank 3 [] 0 disk-IsRanked refl
      (omega arith)

readdir_sync-throws_example :
    (e : Bytes) × (readdir_sync no_text locked deep 3 (codes "d") 0 ≡ throws e)
unfolding iterate is_directory
readdir_sync-throws_example =
    readdir_sync-throws locked deep no_text 3 (codes "d") 0
      (below {d = codes "sub"} {j = 2} refl (tail (head refl)) refl refl (unopened refl))
