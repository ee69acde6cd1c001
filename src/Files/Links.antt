-- ===== src/Files/Links.antt =====
-- `readdirSync` and symbolic links.
use breeze_js.Prelude.{ℕ, sym, ◌∙◌, inl, inr, ◌≡◌, refl, true, false, List, some}
use mathlib.Core.List.{Memᴰ}
use breeze_js.Prelude.Result.{ok}
use breeze_js.Bytes.{Bytes}
use breeze_js.Files.{
  Entry, Fs, ReadDirOptions, directory, symlink, iterate, is_directory, readdir_sync,
}
use breeze_js.Files.Shown.{IsShown}
use breeze_js.Files.Listed.{own, below, readdir_sync-IsListed}

iterate-symlink :
    (fs : Fs) (j k : ℕ) (inner : List Entry)
    → fs j ≡ symlink (some k)
    → fs k ≡ directory (some inner)
    → iterate fs j ≡ some inner
unfolding iterate
iterate-symlink fs j k inner a b = rw (a, b, iterate) refl

is_directory-symlink :
    (fs : Fs) (j k : ℕ) (inner : List Entry)
    → fs j ≡ symlink (some k)
    → fs k ≡ directory (some inner)
    → is_directory fs j ≡ some true
unfolding is_directory
is_directory-symlink fs j k inner a b = rw (a, b, is_directory) refl

-- With `recursive`, a call that returns has listed what a linked directory holds, as far as it is
-- shown itself, whether `follow_symlinks` is set or not; if it is not, only the link itself is not
-- shown.
pub readdir_sync-symlink :
    (what : Bytes → Bytes) (fs : Fs) (o : ReadDirOptions) (depth : ℕ) (path : Bytes) (i j k n : ℕ)
    (es inner : List Entry) (link name : Bytes) (l : List Bytes)
    → readdir_sync what fs o depth path i ≡ ok l
    → o.recursive ≡ true
    → iterate fs i ≡ some es
    → Memᴰ (link, j) es
    → fs j ≡ symlink (some k)
    → fs k ≡ directory (some inner)
    → Memᴰ (name, n) inner
    → IsShown fs o n
    → Memᴰ name l × (o.follow_symlinks ≡ false → ¬ IsShown fs o j)
readdir_sync-symlink what fs o depth path i j k n es inner link name l h r found m a b inside s = (
  (readdir_sync-IsListed fs o what depth path i l h name).1 (
      below found m r (is_directory-symlink fs j k inner a b)
        (own (iterate-symlink fs j k inner a b) inside s)),
  λ off s. elim s [ inl on ↦ cc (sym off ∙ on) | inr f ↦ f (some k) a ],
)
