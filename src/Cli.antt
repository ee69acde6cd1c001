-- ===== src/Cli.antt =====
-- `main` of src/breeze-js-cli/main.cc: what it does with its parsed options.
--
-- The options, the file system and the script context are parameters. cxxopts is not part of this
-- repository: `as_string` is `result[name].as<std::string>()`, for an option that was given or not.
-- An evaluation gives a value or an error text; `await` is the wait for the value in syncAwait, and
-- `as_text` its conversion.
pub mod Exit
pub mod Program
mod Tests
use breeze_js.Prelude.{
  Bool, true, false, ◌&&◌, Option, none, some, List, [], ◌∷◌, ◌++◌, if◌then◌else◌,
}
use breeze_js.Prelude.Result.{Result, ok, throws}
use breeze_js.Bytes.{Bytes, codes}

-- `result.count(name)` and the values.
pub record Options : Type 0 where
  pub help : Bool
  pub version : Bool
  pub file : Option Bytes
  pub input : Option Bytes
  pub folder : Option Bytes
  pub eval : Option Bytes

-- How the program ends: with a line on the output or an error line, or not, watching a folder.
pub data Outcome : Type 0 where
  success : Bytes → Outcome
  failure : Bytes → Outcome
  watching : Bytes → Outcome

-- What main calls. `Value` is what an evaluation gives.
pub record World : Type 1 where
  pub Value : Type 0
  pub help_text : Bytes
  pub as_string : Option Bytes → Result Bytes
  pub exists : Bytes → Bool
  pub is_directory : Bytes → Bool
  pub eval_file : Bytes → Result Value
  pub eval_string : Bytes → Result Value
  pub await : Value → Result Value
  pub as_text : Value → Result Bytes

abbrev pub or_else {ℓ} : {A : Type ℓ} → Option A → Option A → Option A
or_else none b = b
or_else (some a) b = some a

-- `Error parsing options: ` with the exception's text, of a failed `as`.
abbrev pub parsing_error : Bytes → Outcome
parsing_error e = failure (codes "Error parsing options: " ++ e)

module _ (w : World) where
  -- The end of the branch of a file that exists.
  unfoldable pub run_file : Bytes → Outcome
  run_file path = elim (w.eval_file path) [
    | throws e ↦ failure (codes "Error executing file: " ++ e)
    | ok value ↦ elim (w.await value) [
      | throws e ↦ failure (codes "Error awaiting result: " ++ e)
      | ok awaited ↦ success []
    ]
  ]

  unfoldable pub run_string : Bytes → Outcome
  run_string script = elim (w.eval_string script) [
    | throws e ↦ failure (codes "Error evaluating string: " ++ e)
    | ok value ↦ elim (w.await value) [
      | throws e ↦ failure (codes "Error: " ++ e)
      | ok awaited ↦ elim (w.as_text awaited) [
        | throws e ↦ failure (codes "Error: " ++ e)
        | ok text ↦ success text
      ]
    ]
  ]

  unfoldable pub file_branch : Options → Outcome
  unfolding run_file
  file_branch o = elim (w.as_string o.file) [
    | throws e ↦ parsing_error e
    | ok path ↦
        if w.exists path then run_file path else failure (codes "Error: File not found: " ++ path)
  ]

  unfoldable pub folder_branch : Bytes → Outcome
  folder_branch path =
      if w.exists path && w.is_directory path
      then watching path
      else failure (codes "Error: Folder not found or is not a directory: " ++ path)

  -- Behind the options that print and exit, and `ctx->reset_runtime()`.
  unfoldable pub dispatch : Options → Outcome
  unfolding file_branch folder_branch run_string
  dispatch o = elim (or_else o.file o.input) [
    | some input_file ↦ file_branch o
    | none ↦ elim o.folder [
      | some path ↦ folder_branch path
      | none ↦ elim o.eval [ some script ↦ run_string script | none ↦ success w.help_text ]
    ]
  ]

  unfoldable pub main : Options → Outcome
  unfolding dispatch
  main o =
      if o.help
      then success w.help_text
      else if o.version
      then success (codes "Breeze.JS Version 0.1.0")
      else dispatch o
