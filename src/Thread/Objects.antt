-- ===== src/Thread/Objects.antt =====
-- How many objects own a thread, over the changes of the objects.
use breeze_js.Prelude.{
  ℕ, zero, suc, ◌+◌, ◌<◌, ◌≡◌, ◌≢◌, refl, true, List, [], ◌∷◌, ◌++◌, ◌==◌, if◌then◌else◌, arith,
  length, remove_if, count,
}
use breeze_js.Thread.{Thread, at, set_at}

-- 1 if the object is joinable with the handle `h`.
abbrev pub owns : ℕ → Thread → ℕ
owns h t = if t.joinable then (if t.handle == h then 1 else 0) else 0

abbrev pub owners : ℕ → List Thread → ℕ
owners h [] = 0
owners h (t ∷ ts) = owns h t + owners h ts

pub owners-append : (h : ℕ) (xs ys : List Thread) → owners h (xs ++ ys) ≡ owners h xs + owners h ys
owners-append h [] ys = omega arith
owners-append h (x ∷ xs) ys = omega (arith, owners-append h xs ys)

pub owners-set_at :
    (h : ℕ) (ts : List Thread) (i : ℕ) (t : Thread)
    → i < length ts
    → owners h (set_at ts i t) + owns h (at ts i) ≡ owners h ts + owns h t
unfolding set_at
owners-set_at h [] i t b = absurd (omega arith)
owners-set_at h (x ∷ xs) zero t b = omega arith
owners-set_at h (x ∷ xs) (suc i) t b = omega (arith, owners-set_at h xs i t (omega arith))

pub length-set_at : (ts : List Thread) (i : ℕ) (t : Thread) → length (set_at ts i t) ≡ length ts
unfolding set_at
length-set_at [] i t = refl
length-set_at (x ∷ xs) zero t = refl
length-set_at (x ∷ xs) (suc i) t = omega (arith, length-set_at xs i t)

pub at-set_at_other :
    (ts : List Thread) (i j : ℕ) (t : Thread) → i ≢ j → at (set_at ts i t) j ≡ at ts j
unfolding set_at
at-set_at_other [] i j t ne = refl
at-set_at_other (x ∷ xs) zero zero t ne = absurd (ne refl)
at-set_at_other (x ∷ xs) zero (suc j) t ne = refl
at-set_at_other (x ∷ xs) (suc i) zero t ne = refl
at-set_at_other (x ∷ xs) (suc i) (suc j) t ne = at-set_at_other xs i j t (λ e. ne (omega arith))

-- An object that is joinable stands in the list.
pub joinable-lt : (ts : List Thread) (i : ℕ) → (at ts i).joinable ≡ true → i < length ts
joinable-lt [] i h = cc
joinable-lt (x ∷ xs) zero h = omega arith
joinable-lt (x ∷ xs) (suc i) h = omega (arith, joinable-lt xs i h)

pub count-remove_if :
    (k h : ℕ) (xs : List ℕ)
    → count k (remove_if (λ x. x == h) xs) ≡ (if k == h then 0 else count k xs)
unfolding remove_if
count-remove_if k h [] = ground arith
count-remove_if k h (x ∷ xs) = ground (arith, count-remove_if k h xs)
