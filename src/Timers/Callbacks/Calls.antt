-- ===== src/Timers/Callbacks/Calls.antt =====
-- What a round with JS callbacks does, and by which thread.
use breeze_js.Prelude.{ℕ, ◌+◌, Bool, List, [], ◌∷◌, if◌then◌else◌}
use breeze_js.Prelude.Result.{Result}
use breeze_js.Bridge.{is_js_thread, Use}
use breeze_js.Timers.Callbacks.{throwing}

-- The uses by another thread than the JS thread.
abbrev pub off_js : List Use → ℕ
off_js [] = 0
off_js (u ∷ us) = (if is_js_thread u.thread then 0 else 1) + off_js us

-- The callbacks that return.
abbrev pub returning : (ℕ → Bool) → List ℕ → ℕ
returning throwing [] = 0
returning throwing (c ∷ cs) = (if throwing c then 0 else 1) + returning throwing cs
