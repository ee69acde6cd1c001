-- ===== src/Script.antt =====
-- The evaluation of scripts by `script_context`, `post_sync`, and the loop of `watch_folder`
-- (src/breeze-js/script.cc and headers/breeze-js/script.h).
--
-- The engine is a parameter: what compiling a script and running it with its import.meta come to,
-- and whether a C++ exception leaves the code around them. A file is what an std::ifstream reads of
-- it, or none if it is not open.
pub mod Eval
pub mod Watch
pub mod Runtime
pub mod Lifetime
pub mod Console
mod Tests
use breeze_js.Prelude.{
  ℕ, suc, ◌+◌, ◌-◌, Bool, true, false, not, ◌&&◌, List, [], ◌∷◌, ◌++◌, Option, none, some,
  if◌then◌else◌, length, leb, drop, ◌==◌,
}
use breeze_js.Prelude.Result.{Result, ok, throws}
use breeze_js.Bytes.{Bytes, codes, str_eq}

-- What a step of the engine comes to: an object, an error with its text and its stack, or a C++
-- exception with its text.
pub data Engine (A : Type 0) : Type 0 where
  done : A → Engine A
  error_value : Bytes → Bytes → Engine A
  threw : Bytes → Engine A

-- `std::filesystem::path(filename).filename()`: what stands behind the last '/'.
abbrev pub behind_slash : Bytes → Bytes → Bytes
behind_slash name [] = name
behind_slash name (b ∷ bs) = if b == b'/' then behind_slash bs bs else behind_slash name bs

abbrev pub file_name : Bytes → Bytes
file_name path = behind_slash path path

-- Behind JS_EvalFunction.
abbrev pub executed : {V : Type 0} → Bytes → Engine V → Result V
executed filename (done v) = ok v
executed filename (error_value text stack) =
    throws (codes "Error executing file: " ++ (filename ++ (codes " " ++ (text ++ stack))))
executed filename (threw what) =
    throws (codes "Exception in file: " ++ (filename ++ (codes " " ++ what)))

module _ {F V : Type 0} (compile : Bytes → Bytes → Engine F)
    (eval_function : F → Bytes → Bytes → Engine V) where
  -- Behind JS_Eval: the module gets `url` and `name` in its import.meta, and runs.
  abbrev pub compiled : Bytes → Engine F → Result V
  compiled filename (done func) =
      executed filename (eval_function func filename (file_name filename))
  compiled filename (error_value text stack) =
      throws (codes "Error compiling file: " ++ (filename ++ (codes " " ++ (text ++ stack))))
  compiled filename (threw what) =
      throws (codes "Exception in file: " ++ (filename ++ (codes " " ++ what)))

  -- script_context::eval_string_impl
  unfoldable pub eval_string_impl : Bytes → Bytes → Result V
  eval_string_impl script filename = compiled filename (compile script filename)

-- A promise that the posted task fills: `set_value(f())`, or `set_exception` where it throws; get
-- returns the one and throws the other.
pub data Promise (A : Type 0) : Type 0 where
  value : A → Promise A
  exception : Bytes → Promise A

abbrev pub fill : {A : Type 0} → Result A → Promise A
fill (ok a) = value a
fill (throws e) = exception e

abbrev pub get_future : {A : Type 0} → Promise A → Result A
get_future (value a) = ok a
get_future (exception e) = throws e

-- post_sync, once the loop has run the task that it posts from another thread.
unfoldable pub post_sync : {A : Type 0} → Bool → Result A → Result A
post_sync is_js_thread f = if is_js_thread then f else get_future (fill f)

module _ {F V : Type 0} (compile : Bytes → Bytes → Engine F)
    (eval_function : F → Bytes → Bytes → Engine V) where
  -- script_context::eval_string
  unfoldable pub eval_string : Bool → Bytes → Bytes → Result V
  unfolding eval_string_impl post_sync
  eval_string is_js_thread script filename =
      if is_js_thread
      then eval_string_impl compile eval_function script filename
      else post_sync is_js_thread (eval_string_impl compile eval_function script filename)

  -- script_context::eval_file, for a file that std::ifstream opens and reads without an exception.
  unfoldable pub eval_file : Bool → (Bytes → Option Bytes) → Bytes → Result V
  unfolding eval_string
  eval_file is_js_thread read path = elim (read path) [
    | none ↦ throws (codes "Error opening file: " ++ path)
    | some script ↦ eval_string is_js_thread script path
  ]

-- `path.ends_with(".js")`
abbrev pub ends_with : Bytes → Bytes → Bool
ends_with path suffix =
    leb (length suffix) (length path) && str_eq (drop (length path - length suffix) path) suffix

-- Where the loop of watch_folder stands: in sleep_for, in on_reload, in front of the reset of
-- has_update, and in reload_all.
pub data WatchPc : Type 0 where
  sleeps asks resets reloads_all : WatchPc

-- What happens to a watched folder: a file changes, which calls the watcher's function, at any time; or
-- the loop goes on to its next statement, with what on_reload says if it is asked.
pub data WatchEvent : Type 0 where
  changed : Bytes → WatchEvent
  goes_on : Bool → WatchEvent

pub record Watching : Type 0 where
  pub pc : WatchPc
  pub has_update : Bool
  pub reloads : ℕ

-- The next statement of the loop.
unfoldable pub loop_step : WatchPc → Bool → Watching → Watching
loop_step sleeps on_reload w = if w.has_update then record w { pc = asks } else w
loop_step asks on_reload w = record w { pc = if on_reload then resets else sleeps }
loop_step resets on_reload w = record w { pc = reloads_all; has_update = false }
loop_step reloads_all on_reload w = record w { pc = sleeps; reloads = suc w.reloads }

unfoldable pub watch_step : WatchEvent → Watching → Watching
unfolding loop_step
watch_step (changed path) w =
    if not (ends_with path (codes ".js")) then w else record w { has_update = true }
watch_step (goes_on on_reload) w = loop_step w.pc on_reload w

unfoldable pub watch : List WatchEvent → Watching → Watching
unfolding watch_step
watch [] w = w
watch (e ∷ es) w = watch es (watch_step e w)

-- watch_folder loads the folder once, and then watches.
abbrev pub watch_begun : Watching
watch_begun = record { pc = sleeps; has_update = false; reloads = 1 }

unfoldable pub watch_folder : List WatchEvent → Watching
unfolding watch
watch_folder es = watch es watch_begun
