-- ===== src/Script/Watch.antt =====
-- What `watch_folder` reloads.
use breeze_js.Prelude.{
  ℕ, suc, ◌≡◌, refl, ap, sym, subst, inl, inr, Bool, Bool-cases, true, false, not, List, [], ◌∷◌,
  ◌++◌, if◌then◌else◌, is_empty,
}
use breeze_js.Bytes.{Bytes, codes}
use breeze_js.Script.{
  ends_with, WatchPc, sleeps, asks, resets, reloads_all, WatchEvent, changed, goes_on, Watching,
  loop_step, watch_step, watch, watch_begun, watch_folder,
}

-- The changes of scripts that no reload has read: those behind the start of the last reload, which it may
-- have missed, and those in front of it, as long as it runs; and the reloads that have ended. A reload
-- starts when the loop goes on to reload_all, and reads what has changed before.
pub record Unread : Type 0 where
  pub recent : List Bytes
  pub reading : List Bytes
  pub loads : ℕ

abbrev pub loop_unread : WatchPc → Unread → Unread
loop_unread resets u = record u { recent = []; reading = u.recent ++ u.reading }
loop_unread reloads_all u = record u { reading = []; loads = suc u.loads }
loop_unread _ u = u

abbrev pub unread_step : WatchEvent → WatchPc → Unread → Unread
unread_step (changed path) pc u =
    if ends_with path (codes ".js") then record u { recent = path ∷ u.recent } else u
unread_step (goes_on on_reload) pc u = loop_unread pc u

unfoldable pub unread : List WatchEvent → Watching → Unread → Unread
unread [] w u = u
unread (e ∷ es) w u = unread es (watch_step e w) (unread_step e w.pc u)

-- Only a reload that runs has changes to read.
abbrev pub IsReading : WatchPc → List Bytes → Type 0
IsReading reloads_all paths = Unit
IsReading _ paths = paths ≡ []

-- The flag says whether there are changes that no reload has read or is about to read.
abbrev pub Shows : Watching → Unread → Type 0
Shows w u =
    (w.has_update ≡ not (is_empty u.recent)) × IsReading w.pc u.reading × (w.reloads ≡ u.loads)

at_test-Shows :
    (b : Bool) (w : Watching) (u : Unread)
    → (w.has_update ≡ not (is_empty u.recent)) × (u.reading ≡ []) × (w.reloads ≡ u.loads)
    → w.pc ≡ sleeps
    → Shows (if b then record w { pc = asks } else w) u
at_test-Shows true w u (flag, read, n) q = (flag, read, n)
at_test-Shows false w u (flag, read, n) q =
    (flag, subst (λ pc. IsReading pc u.reading) (sym q) read, n)

loop_step-Shows :
    (pc : WatchPc) (b : Bool) (w : Watching) (u : Unread)
    → (w.has_update ≡ not (is_empty u.recent)) × IsReading pc u.reading × (w.reloads ≡ u.loads)
    → w.pc ≡ pc
    → Shows (loop_step pc b w) (loop_unread pc u)
unfolding loop_step
loop_step-Shows sleeps b w u h q = at_test-Shows w.has_update w u h q
loop_step-Shows asks true w u (flag, read, n) q = (flag, read, n)
loop_step-Shows asks false w u (flag, read, n) q = (flag, read, n)
loop_step-Shows resets b w u (flag, read, n) q = (refl, tt, n)
loop_step-Shows reloads_all b w u (flag, read, n) q = (flag, refl, ap suc n)

watch_step-Shows :
    (e : WatchEvent) (w : Watching) (u : Unread)
    → Shows w u
    → Shows (watch_step e w) (unread_step e w.pc u)
unfolding watch_step
watch_step-Shows (changed path) w u (flag, read, n) =
    elim (Bool-cases (ends_with path (codes ".js"))) [
      | inl script ↦ rw script (refl, read, n)
      | inr other ↦ rw other (flag, read, n)
    ]
watch_step-Shows (goes_on b) w u h = loop_step-Shows w.pc b w u h refl

watch-Shows :
    (es : List WatchEvent) (w : Watching) (u : Unread)
    → Shows w u
    → Shows (watch es w) (unread es w u)
unfolding watch unread
watch-Shows [] w u h = h
watch-Shows (e ∷ es) w u h =
    watch-Shows es (watch_step e w) (unread_step e w.pc u) (watch_step-Shows e w u h)

-- From when the watcher is set up, no change of a script is lost, whenever it happens, during a reload
-- too, and whatever on_reload says: the flag is set exactly if a script has changed behind the start of
-- the last reload; and a change in front of that start is read by that reload, which is then
-- still running or has ended. And there have been as many reloads as have ended, with the first one.
pub watch_folder-Shows :
    (es : List WatchEvent)
    → Shows
        (watch_folder es)
        (unread es watch_begun (record { recent = []; reading = []; loads = 1 }))
unfolding watch_folder
watch_folder-Shows es = watch-Shows es watch_begun _ (refl, refl, refl)
