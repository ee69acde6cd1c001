-- ===== src/Script/Tests.antt =====
-- An engine whose scripts are their own values, and the theorems at it.
use breeze_js.Prelude.{
  ◌≡◌, refl, List, [], ◌∷◌, ◌++◌, Option, none, some, true, false, if◌then◌else◌,
}
use breeze_js.Prelude.Result.{ok}
use breeze_js.Bytes.{Bytes, codes, str_eq}
use breeze_js.Script.{
  Engine, done, error_value, eval_file, eval_string, eval_string_impl, post_sync, changed, goes_on,
  watch_begun, WatchPc, WatchEvent, watch_folder, watch, watch_step,
}
use breeze_js.Script.Runtime.{load_module}
use breeze_js.Script.Console.{println, utf8_to_wstring}
use breeze_js.Script.Watch.{Shows, unread, watch_folder-Shows}

abbrev compiles : Bytes → Bytes → Engine Bytes
compiles script filename = if str_eq script [] then error_value (codes "empty") [] else done script

-- A script gives its text and its name.
abbrev runs : Bytes → Bytes → Bytes → Engine Bytes
runs script url name = done (script ++ name)

abbrev one_script : Bytes → Option Bytes
one_script path = if str_eq path (codes "d/a.js") then some (codes "1+1") else none

file_runs : eval_file compiles runs false one_script (codes "d/a.js") ≡ ok (codes "1+1a.js")
unfolding eval_file eval_string eval_string_impl post_sync str_eq
file_runs = refl

-- A script changes; on_reload puts it off once; and it changes again while it is loaded.
abbrev events : List WatchEvent
events =
    changed (codes "a.txt")
    ∷ goes_on true
    ∷ changed (codes "a.js")
    ∷ goes_on true
    ∷ goes_on false
    ∷ goes_on true
    ∷ goes_on true
    ∷ goes_on true
    ∷ changed (codes "a.js")
    ∷ goes_on true
    ∷ []

watch_runs : watch_folder events ≡ record { pc = WatchPc.sleeps; has_update = true; reloads = 2 }
unfolding watch_folder watch watch_step str_eq
watch_runs = refl

watch_folder-Shows_example :
    Shows
      (watch_folder events)
      (unread events watch_begun (record { recent = []; reading = []; loads = 1 }))
watch_folder-Shows_example = watch_folder-Shows events

-- The line ends twice.
println_twice :
    (println ok ok (codes "a" ∷ codes "b" ∷ []) (record { cout = []; cerr = [] })).cout
    ≡ codes "a b \n\n"
unfolding println utf8_to_wstring
println_twice = refl

loads_beside :
    load_module (λ p. str_eq p (codes "/m/a.js")) (λ p. p) (codes "/m") (codes "a")
    ≡ some (codes "/m/a.js")
unfolding load_module str_eq
loads_beside = refl
