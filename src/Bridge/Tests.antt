-- ===== src/Bridge/Tests.antt =====
-- Promises, values and calls, and the theorems at them.
use breeze_js.Prelude.{◌≡◌, refl, ℕ, ◌+◌, true, false, List, [], ◌∷◌, some, none, All, count}
use breeze_js.Prelude.Result.{ok}
use breeze_js.Bridge.{Context, other_thread}
use breeze_js.Bridge.Uses.{IsBalanced, IsOnJs}
use breeze_js.Bridge.Await.{
  Look, fulfilled, pending, await, awaited, run_tasks, resume, start, poll, poll_state,
}
use breeze_js.Bridge.Await.Outcome.{first_outcome, await-outcome}
use breeze_js.Bridge.Await.Releases.{await-releases}
use breeze_js.Bridge.Values.{Heap, from_weak, moved_from, construct_weak, copy, move, destroy}
use breeze_js.Bridge.Values.Owned.{WeakReach, here, next, no_values, WeakReach-freed}

-- Another thread, of a context with an event loop.
abbrev elsewhere : Context
elsewhere = record { script_ctx = true; caller = other_thread }

-- The promise is pending twice, and then fulfilled.
abbrev settles : List (Look ℕ)
settles =
    record { expired = false; promise = pending }
    ∷ record { expired = false; promise = pending }
    ∷ record { expired = false; promise = fulfilled 7 }
    ∷ []

-- The context goes while the promise is pending.
abbrev goes : List (Look ℕ)
goes =
    record { expired = false; promise = pending }
    ∷ record { expired = true; promise = pending }
    ∷ []

await_runs : await elsewhere true 1 settles ≡ some (ok 7)
unfolding await run_tasks resume start poll poll_state
await_runs = refl

await-outcome_example : await elsewhere true 1 settles ≡ first_outcome 1 settles
await-outcome_example = await-outcome elsewhere 1 settles

await-releases_example :
    IsBalanced (awaited elsewhere 1 settles).uses
    × ((awaited elsewhere 1 settles).has_poll_fn ≡ false)
    × ((awaited elsewhere 1 settles).posted ≡ none)
    × All IsOnJs (awaited elsewhere 1 settles).uses
unfolding run_tasks resume start poll poll_state
await-releases_example = await-releases elsewhere 1 settles refl refl

-- A value is built, moved, and copied, and the three are destroyed.
dropped_values :
    (h : Heap) × WeakReach elsewhere no_values h × (h.values ≡ []) × (h.made ≡ 4 ∷ 4 ∷ [])
dropped_values = (
  _,
  next
      (next
        (next
          (next (next (next here (construct_weak 4) tt) (move [] [] (from_weak 4) refl) tt)
            (copy [] (moved_from (from_weak 4) ∷ []) (from_weak 4) refl) refl)
          (destroy [] (from_weak 4 ∷ moved_from (from_weak 4) ∷ []) (from_weak 4) refl) tt)
        (destroy [] (moved_from (from_weak 4) ∷ []) (from_weak 4) refl) tt)
      (destroy [] [] (moved_from (from_weak 4)) refl) tt,
  refl,
  refl,
)

WeakReach-freed_example :
    2 ≡ count 4 (dropped_values.0).freed + count 4 (dropped_values.0).elsewhere
unfolding dropped_values
WeakReach-freed_example = WeakReach-freed dropped_values.1 refl 4
