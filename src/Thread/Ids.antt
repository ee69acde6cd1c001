-- ===== src/Thread/Ids.antt =====
-- The ids of threads, and the end of the program.
use breeze_js.Prelude.{
  ℕ, zero, suc, ◌+◌, ◌≤◌, ◌<◌, ◌≡◌, ◌≢◌, ◌↔◌, refl, subst, inl, inr, true, List, [], ◌∷◌, ◌==◌,
  arith, length, Bool-cases,
}
use breeze_js.Thread.{Thread, System, at, get_id, id_eq}
use breeze_js.Thread.Objects.{owns, owners, joinable-lt}
use breeze_js.Thread.Owned.{IsOwned}

owns-le-owners : (h : ℕ) (ts : List Thread) (i : ℕ) → i < length ts → owns h (at ts i) ≤ owners h ts
owns-le-owners h [] i b = absurd (omega arith)
owns-le-owners h (t ∷ ts) zero b = omega arith
owns-le-owners h (t ∷ ts) (suc i) b = omega (arith, owns-le-owners h ts i (omega arith))

owners_two :
    (h : ℕ) (ts : List Thread) (i j : ℕ)
    → i ≢ j
    → i < length ts
    → j < length ts
    → owns h (at ts i) + owns h (at ts j) ≤ owners h ts
owners_two h [] i j ne b c = absurd (omega arith)
owners_two h (t ∷ ts) zero zero ne b c = absurd (ne refl)
owners_two h (t ∷ ts) zero (suc j) ne b c = omega (arith, owns-le-owners h ts j (omega arith))
owners_two h (t ∷ ts) (suc i) zero ne b c = omega (arith, owns-le-owners h ts i (omega arith))
owners_two h (t ∷ ts) (suc i) (suc j) ne b c =
    omega (arith, owners_two h ts i j (λ e. ne (omega arith)) (omega arith) (omega arith))

id_eq-joinable :
    (t u : Thread)
    → t.joinable ≡ true
    → id_eq (get_id t) (get_id u) ≡ true
    → (u.joinable ≡ true) × (u.handle ≡ t.handle)
unfolding get_id
id_eq-joinable t u a e = ground arith

owns-joinable : (h : ℕ) (t : Thread) → t.joinable ≡ true → t.handle ≡ h → owns h t ≡ 1
owns-joinable h t a e = ground arith

get_id-injective :
    (s : System) (i j : ℕ)
    → IsOwned s
    → (at s.objects i).joinable ≡ true
    → id_eq (get_id (at s.objects i)) (get_id (at s.objects j)) ≡ true
    → i ≡ j
get_id-injective s i j k a e =
    let h = (at s.objects i).handle in
    let (b, same) = id_eq-joinable (at s.objects i) (at s.objects j) a e in
    elim (Bool-cases (i == j)) [
      | inl here ↦ ground arith
      | inr apart ↦ absurd (
          omega (
            arith,
            owners_two h s.objects i j (λ q. ground arith) (joinable-lt s.objects i a)
                (joinable-lt s.objects j b),
            owns-joinable h (at s.objects i) a refl,
            owns-joinable h (at s.objects j) b same,
            k.owned h,
            k.once h,
          ))
    ]

id_eq_self : (t : Thread) → t.joinable ≡ true → id_eq (get_id t) (get_id t) ≡ true
unfolding get_id
id_eq_self t a = ground arith

-- Where every live thread has one owner and no other handle has any, the id of a joinable object is
-- equal to that of an object exactly if they are the same object.
pub id_eq-get_id :
    (s : System) (i j : ℕ)
    → IsOwned s
    → (at s.objects i).joinable ≡ true
    → (id_eq (get_id (at s.objects i)) (get_id (at s.objects j)) ≡ true) ↔ (i ≡ j)
id_eq-get_id s i j k a = (
  get_id-injective s i j k a,
  λ e.
      subst (λ n. id_eq (get_id (at s.objects i)) (get_id (at s.objects n)) ≡ true) e
        (id_eq_self (at s.objects i) a),
)
