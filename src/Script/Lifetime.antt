-- ===== src/Script/Lifetime.antt =====
-- What `reset_runtime` frees, and in which order.
use breeze_js.Prelude.{ℕ, ◌==◌, Bool, true, false, not, ◌&&◌, ◌||◌, List, [], ◌∷◌, ◌++◌}
use breeze_js.Script.Runtime.{
  LifeEvent, make_runtime, free_runtime, make_context, free_context, Host, join_js_thread,
}

abbrev pub elem : ℕ → List ℕ → Bool
elem n [] = false
elem n (x ∷ xs) = (x == n) || elem n xs

-- No context is freed behind its runtime; `dead` holds the runtimes that are freed.
abbrev pub in_order : List ℕ → List LifeEvent → Bool
in_order dead [] = true
in_order dead (free_runtime n ∷ es) = in_order (n ∷ dead) es
in_order dead (free_context n ∷ es) = not (elem n dead) && in_order dead es
in_order dead (_ ∷ es) = in_order dead es

abbrev dead_after : List ℕ → List LifeEvent → List ℕ
dead_after dead [] = dead
dead_after dead (free_runtime n ∷ es) = dead_after (n ∷ dead) es
dead_after dead (_ ∷ es) = dead_after dead es

abbrev until_context : Host → ℕ → List LifeEvent
until_context h m =
    ((join_js_thread h).log ++ make_runtime h.resets ∷ free_runtime m ∷ [])
    ++ make_context h.resets ∷ free_context m ∷ []
