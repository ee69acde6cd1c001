-- ===== src/Cli/Program.antt =====
-- `main` with the script context of Script and the `Value::await` of Bridge.
use breeze_js.Prelude.{◌≡◌, sym, ap, ◌∙◌, ◌↔◌, true, false, List, Option, some, [], some_injective}
use breeze_js.Prelude.Result.{Result, ok}
use breeze_js.Bytes.{Bytes, codes}
use breeze_js.Bridge.{Context}
use breeze_js.Bridge.Await.{Look, await}
use breeze_js.Bridge.Await.Outcome.{first_outcome, await-outcome}
use breeze_js.Script.{Engine, done, file_name, eval_file, eval_string}
use breeze_js.Script.Eval.{eval_file-ok_iff}
use breeze_js.Cli.{Options, success, World, main}
use breeze_js.Cli.Exit.{IsAs, main-file}

module _ {F V : Type 0} (compile : Bytes → Bytes → Engine F)
    (eval_function : F → Bytes → Bytes → Engine V) (read : Bytes → Option Bytes) where
  -- This world, with the evaluation of Script, from a thread that is not the JS thread; the name of
  -- a string is what eval_string has by default.
  abbrev pub with_script : World → (V → Result V) → (V → Result Bytes) → World
  with_script w awaits as_text = record {
    Value = V;
    help_text = w.help_text;
    as_string = w.as_string;
    exists = w.exists;
    is_directory = w.is_directory;
    eval_file = eval_file compile eval_function false read;
    eval_string = λ script. eval_string compile eval_function false script (codes "<eval>");
    await = awaits;
    as_text = as_text;
  }

  -- With `--file`, if every await ends: main succeeds exactly if the file exists, it can be read, its
  -- text compiles, the compiled module runs, and the first task of await that does not find the
  -- promise of this run pending finds a live context and no rejection. Which other options are given
  -- does not matter, but for help and version.
  pub main-file_runs :
      (w : World) (o : Options) (path : Bytes) (c : Context) (looks : V → List (Look V))
      (awaits : V → Result V) (as_text : V → Result Bytes)
      → ((v : V) → await c true v (looks v) ≡ some (awaits v))
      → IsAs w.as_string
      → o.help ≡ false
      → o.version ≡ false
      → o.file ≡ some path
      → (main (with_script w awaits as_text) o ≡ success []) ↔ (
          (w.exists path ≡ true)
          × ((script : Bytes) × (func : F) × (v : V) × (awaited : V) × (read path ≡ some script)
              × (compile script path ≡ done func)
              × (eval_function func path (file_name path) ≡ done v)
              × (first_outcome v (looks v) ≡ some (ok awaited))))
  main-file_runs w o path c looks awaits as_text ends a h v f =
      let (fore, back) = main-file (with_script w awaits as_text) o path a h v f in
      let agrees = λ (x : V). sym (await-outcome c x (looks x)) ∙ ends x in
      (
        λ q.
            let (there, (x, y, gave, waited)) = fore q in
            let (script, func, found, compiles, runs) =
              (eval_file-ok_iff compile eval_function false read path x).0 gave in
            (there, (script, func, x, y, found, compiles, runs, agrees x ∙ ap some waited)),
        λ q.
            let (there, (script, func, x, y, found, compiles, runs, first)) = q in
            let gave =
              (eval_file-ok_iff compile eval_function false read path x).1
                (script, func, found, compiles, runs) in
            back (there, (x, y, gave, some_injective (sym (agrees x) ∙ first))),
      )
