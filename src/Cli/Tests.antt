-- ===== src/Cli/Tests.antt =====
-- A machine with one file, and the theorems at it.
use breeze_js.Prelude.{
  ◌≡◌, ◌↔◌, refl, true, false, List, ◌∷◌, if◌then◌else◌, Option, none, some, [], ◌++◌,
}
use breeze_js.Prelude.Result.{Result, ok, throws}
use breeze_js.Bytes.{Bytes, codes, str_eq}
use breeze_js.Cli.{Options, success, failure, World, main, dispatch, file_branch, run_file}
use breeze_js.Cli.Exit.{IsAs, main-input}
use breeze_js.Cli.Program.{with_script, main-file_runs}
use breeze_js.Script.{Engine, done, file_name}
use breeze_js.Bridge.{Context, other_thread}
use breeze_js.Bridge.Await.{
  Look, pending, fulfilled, await, run_tasks, resume, start, poll, poll_state,
}
use breeze_js.Bridge.Await.Outcome.{first_outcome}

abbrev as_string : Option Bytes → Result Bytes
as_string none = throws (codes "no value")
as_string (some s) = ok s

as_string-IsAs : IsAs as_string
as_string-IsAs = record { given = λ s. refl; absent = (codes "no value", refl) }

abbrev machine : World
machine = record {
  Value = Bytes;
  help_text = codes "help";
  as_string = as_string;
  exists = str_eq (codes "a.js");
  is_directory = λ path. false;
  eval_file = λ path. ok path;
  eval_string = λ script. ok script;
  await = λ value. ok value;
  as_text = λ value. ok value;
}

abbrev options : Option Bytes → Option Bytes → Options
options file input = record {
  help = false;
  version = false;
  file = file;
  input = input;
  folder = none;
  eval = none;
}

file_runs : main machine (options (some (codes "a.js")) none) ≡ success []
unfolding main dispatch file_branch run_file str_eq
file_runs = refl

main-input_example :
    (e : Bytes) × (main machine (options none (some (codes "a.js")))
      ≡ failure (codes "Error parsing options: " ++ e))
main-input_example =
    main-input machine (options none (some (codes "a.js"))) (codes "a.js") as_string-IsAs refl refl
      refl refl

-- A script gives its text, as a promise that is pending once.
abbrev compiles : Bytes → Bytes → Engine Bytes
compiles script filename = done script

abbrev runs : Bytes → Bytes → Bytes → Engine Bytes
runs func url name = done func

abbrev one_script : Bytes → Option Bytes
one_script path = if str_eq path (codes "a.js") then some (codes "1+1") else none

abbrev looks : Bytes → List (Look Bytes)
looks v =
    record { expired = false; promise = pending }
    ∷ record { expired = false; promise = fulfilled v }
    ∷ []

abbrev elsewhere : Context
elsewhere = record { script_ctx = true; caller = other_thread }

looks_end : (v : Bytes) → await elsewhere true v (looks v) ≡ some (ok v)
unfolding await run_tasks resume start poll poll_state
looks_end v = refl

main-file_runs_example :
    (main (with_script compiles runs one_script machine ok ok) (options (some (codes "a.js")) none)
      ≡ success [])
    ↔ ((machine.exists (codes "a.js") ≡ true)
        × ((script : Bytes) × (func : Bytes) × (v : Bytes) × (awaited : Bytes) × (one_script
                (codes "a.js")
              ≡ some script)
            × (compiles script (codes "a.js") ≡ done func)
            × (runs func (codes "a.js") (file_name (codes "a.js")) ≡ done v)
            × (first_outcome v (looks v) ≡ some (ok awaited))))
main-file_runs_example =
    main-file_runs compiles runs one_script machine (options (some (codes "a.js")) none)
      (codes "a.js") elsewhere looks ok ok looks_end as_string-IsAs refl refl refl
