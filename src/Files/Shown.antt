-- ===== src/Files/Shown.antt =====
-- Which entries `readdirSync` shows.
use breeze_js.Prelude.{
  ℕ, ◌≡◌, ◌≢◌, refl, ◌⊎◌, inl, inr, ◌↔◌, Bool, true, false, ◌&&◌, Option, arith, Bool-cases,
}
use breeze_js.Files.{
  Fs, Node, file, directory, symlink, no_status, is_symlink, ReadDirOptions, shows,
}

pub and_true : (a b : Bool) → (a && b) ≡ true → (a ≡ true) × (b ≡ true)
and_true a b h = ground arith

pub and_both : {a b : Bool} → a ≡ true → b ≡ true → (a && b) ≡ true
and_both {a} {b} p q = ground arith

pub true-ne-false : true ≢ false
true-ne-false e = cc

-- What is shown: no links, or everything.
abbrev pub IsShown : Fs → ReadDirOptions → ℕ → Type 0
IsShown fs o j = (o.follow_symlinks ≡ true) ⊎ ((target : Option ℕ) → fs j ≢ symlink target)

pub is_symlink-eq-false_iff :
    (n : Node) → (is_symlink n ≡ false) ↔ ((target : Option ℕ) → n ≢ symlink target)
is_symlink-eq-false_iff file = (λ h t e. cc, λ f. refl)
is_symlink-eq-false_iff (directory es) = (λ h t e. cc, λ f. refl)
is_symlink-eq-false_iff no_status = (λ h t e. cc, λ f. refl)
is_symlink-eq-false_iff (symlink target) = (λ h. cc, λ f. absurd (f target refl))

pub shows-IsShown : (fs : Fs) (o : ReadDirOptions) (j : ℕ) → shows o fs j ≡ true → IsShown fs o j
shows-IsShown fs o j h = elim (Bool-cases (is_symlink (fs j))) [
  | inl link ↦ inl (ground arith)
  | inr other ↦ inr ((is_symlink-eq-false_iff (fs j)).0 other)
]

pub IsShown-shows : (fs : Fs) (o : ReadDirOptions) (j : ℕ) → IsShown fs o j → shows o fs j ≡ true
IsShown-shows fs o j (inl on) = rw on refl
IsShown-shows fs o j (inr f) = let e = (is_symlink-eq-false_iff (fs j)).1 f in ground arith
