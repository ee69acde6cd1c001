-- ===== src/Script/Runtime.antt =====
-- The life of a `script_context` (src/breeze-js/script.cc and headers/breeze-js/script.h): the
-- runtimes, contexts and threads that `reset_runtime` and the destructor make and free, and `bind`.
--
-- A runtime, its context and its thread have the number of the reset that made them. What the threads
-- do meanwhile is in EventLoop: a join here is one that returns.
use breeze_js.Prelude.{
  ℕ, zero, suc, ◌==◌, Bool, false, not, ◌||◌, is_empty, List, [], ◌∷◌, ◌++◌, map, Option, none,
  some, if◌then◌else◌,
}
use breeze_js.Script.{ends_with}
use breeze_js.Bytes.{Bytes, codes}

pub data LifeEvent : Type 0 where
  join_thread make_runtime free_runtime make_context free_context : ℕ → LifeEvent
  -- the script that `bind` evaluates: at once if the thread is the JS thread, by a task if not
  evaluate_setup : Bool → LifeEvent
  on_bind_called : ℕ → LifeEvent

-- The members of script_context: `js_thread` is set and joinable, or not.
pub record Host : Type 0 where
  pub rt : Option ℕ
  pub js : Option ℕ
  pub js_thread : Option ℕ
  pub js_thread_id : Option ℕ
  pub on_bind : List ℕ
  pub resets : ℕ
  pub log : List LifeEvent

abbrev pub for_some : (ℕ → LifeEvent) → Option ℕ → List LifeEvent
for_some e none = []
for_some e (some n) = e n ∷ []

-- script_context::is_js_thread, on the thread n
abbrev pub runs_on : ℕ → Option ℕ → Bool
runs_on n none = false
runs_on n (some id) = n == id

-- `rt = make_shared<Runtime>()` and `js = make_shared<Context>(*rt)` on the thread n: the new object is
-- made before the old one is let go.
abbrev pub assign_rt : ℕ → Host → Host
assign_rt n h = record h {
  rt = some n;
  log = h.log ++ (make_runtime n ∷ for_some free_runtime h.rt);
}

abbrev pub assign_js : ℕ → Host → Host
assign_js n h = record h {
  js = some n;
  log = h.log ++ (make_context n ∷ for_some free_context h.js);
}

-- script_context::bind, on the thread n
abbrev pub bind : ℕ → Host → Host
bind n h = record h {
  log = h.log ++ (evaluate_setup (runs_on n h.js_thread_id) ∷ map on_bind_called h.on_bind);
}

-- The join of reset_runtime and of stop_event_loop_in_time.
abbrev pub join_js_thread : Host → Host
join_js_thread h = record h { js_thread = none; log = h.log ++ for_some join_thread h.js_thread }

-- What the new thread n does before `run_event_loop`.
abbrev pub start_thread : ℕ → Host → Host
start_thread n h = bind n (assign_js n (assign_rt n (record h { js_thread_id = some n })))

-- script_context::reset_runtime
unfoldable pub reset_runtime : Host → Host
reset_runtime h =
    let n = h.resets in
    let joined = join_js_thread h in
    start_thread n (record joined { resets = suc n; js_thread = some n })

unfoldable pub reset_times : ℕ → Host → Host
unfolding reset_runtime
reset_times zero h = h
reset_times (suc k) h = reset_runtime (reset_times k h)

-- The destructor, and then those of the members: `js` stands behind `rt`.
unfoldable pub destroy_host : Host → Host
destroy_host h =
    let joined = join_js_thread h in
    record joined {
      js = none;
      rt = none;
      log = joined.log ++ (for_some free_context h.js ++ for_some free_runtime h.rt);
    }

-- The constructor, with the functions that `on_bind` gets before the first reset.
abbrev pub new_host : List ℕ → Host
new_host on_bind = record {
  rt = none;
  js = none;
  js_thread = none;
  js_thread_id = none;
  on_bind = on_bind;
  resets = 0;
  log = [];
}

-- All that happens to a script_context that is reset k times and destroyed.
unfoldable pub life : ℕ → List ℕ → List LifeEvent
unfolding reset_times destroy_host
life k on_bind = (destroy_host (reset_times k (new_host on_bind))).log

abbrev pub starts_with : Bytes → ℕ → Bool
starts_with [] c = false
starts_with (b ∷ bs) c = b == c

-- `base / name` of std::filesystem, where the separator is '/'.
abbrev pub append_path : Bytes → Bytes → Bytes
append_path base name =
    if starts_with name b'/'
    then name
    else if is_empty base || ends_with base (codes "/")
    then base ++ name
    else base ++ (codes "/" ++ name)

-- The moduleLoader of reset_runtime: the source, if the file exists; a file that cannot be opened reads
-- as empty.
unfoldable pub load_module : (Bytes → Bool) → (Bytes → Bytes) → Bytes → Bytes → Option Bytes
load_module exists read module_base module_name =
    let module_path = append_path module_base (module_name ++ codes ".js") in
    if not (exists module_path) then none else some (read module_path)

-- script_context::current_exception_string, by whether there is a context, and the text and the stack
-- of its exception, if it is an error.
unfoldable pub current_exception_string : Bool → Option (Bytes × Bytes) → Bytes
current_exception_string has_js exc =
    if not has_js then codes "No JS context available" else elim exc [
      | none ↦ codes "No exception occurred"
      | some (text, stack) ↦ codes "JS Error: " ++ (text ++ (codes "\nStack: " ++ stack))
    ]
