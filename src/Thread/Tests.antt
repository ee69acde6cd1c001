-- ===== src/Thread/Tests.antt =====
-- A run of the objects, and the theorems at it.
use breeze_js.Prelude.{
  ℕ, suc, ◌+◌, ◌≤◌, ◌≡◌, refl, true, false, List, [], ◌∷◌, some, arith, count, remove_if,
}
use breeze_js.Thread.{
  System, CreateCodes, default_construct, creates, move_assigns, joins, destroys, Call, calls, call,
  create, move_assign, destroy, join, set_at,
}
use breeze_js.Thread.Owned.{IsOwned, calls-IsOwned}

-- A handle above all that are live.
abbrev above : List ℕ → ℕ
above [] = 1
above (h ∷ hs) = suc (h + above hs)

count-above : (n : ℕ) (hs : List ℕ) → above hs ≤ n → count n hs ≡ 0
count-above n [] b = refl
count-above n (h ∷ hs) b = ground (arith, count-above n hs (omega arith))

above-fresh : (live : List ℕ) → count (above live) live ≡ 0
above-fresh live = count-above (above live) live (omega arith)

abbrev no_threads : System
no_threads = record { objects = []; live = [] }

no_threads-IsOwned : IsOwned no_threads
no_threads-IsOwned = record { owned = λ h. refl; once = λ h. omega arith }

abbrev success : CreateCodes
success = record { attr_init = 0; attr_setstacksize = 0; create = 0 }

-- A thread is created and moved into an object that was empty; a second one is created and joined.
abbrev script : List Call
script =
    default_construct
    ∷ creates 8 success
    ∷ move_assigns 0 1
    ∷ destroys 1
    ∷ creates 0 success
    ∷ joins 2 0
    ∷ joins 2 0
    ∷ creates 0 success
    ∷ []

abbrev left : System
left = record {
  objects =
      record { handle = 1; joinable = true }
      ∷ record { handle = 1; joinable = false }
      ∷ record { handle = 0; joinable = false }
      ∷ record { handle = 3; joinable = true }
      ∷ [];
  live = 3 ∷ 1 ∷ [];
}

script_runs : calls above script no_threads ≡ some left
unfolding calls call create move_assign destroy join set_at remove_if
script_runs = refl

calls-IsOwned_example : IsOwned left
calls-IsOwned_example =
    calls-IsOwned above above-fresh script no_threads left no_threads-IsOwned script_runs

left-IsOwned : IsOwned left
left-IsOwned = calls-IsOwned above above-fresh script no_threads left no_threads-IsOwned script_runs
