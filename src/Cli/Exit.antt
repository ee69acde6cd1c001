-- ===== src/Cli/Exit.antt =====
-- How `main` ends.
use breeze_js.Prelude.{
  ◌≡◌, refl, sym, ap, ◌∙◌, true, false, Option, none, some, [], ◌++◌, Bool-cases, ◌↔◌, inl, inr,
  if◌then◌else◌,
}
use breeze_js.Prelude.Result.{Result, ok, throws, ok_injective, Result-cases}
use breeze_js.Bytes.{Bytes, codes}
use breeze_js.Cli.{Options, success, failure, World, run_file, file_branch, dispatch, main}

-- What cxxopts documents of `as`: the value of an option that was given, an exception otherwise.
pub record IsAs (as_string : Option Bytes → Result Bytes) : Type 0 where
  pub given : (s : Bytes) → as_string (some s) ≡ ok s
  pub absent : (e : Bytes) × (as_string none ≡ throws e)

-- With a positional argument and no `--file`, main never reads the argument: it ends with an error of
-- the options, whatever the argument is and whichever other options are given but help and version.
pub main-input :
    (w : World) (o : Options) (path : Bytes)
    → IsAs w.as_string
    → o.help ≡ false
    → o.version ≡ false
    → o.file ≡ none
    → o.input ≡ some path
    → (e : Bytes) × (main w o ≡ failure (codes "Error parsing options: " ++ e))
unfolding main dispatch file_branch
main-input w o path a h v f i =
    (a.absent.0, rw (main, h, v, dispatch, f, i, file_branch, f, a.absent.1) refl)

main-file_some :
    (w : World) (o : Options) (path : Bytes)
    → IsAs w.as_string
    → o.help ≡ false
    → o.version ≡ false
    → o.file ≡ some path
    → main w o ≡ (
        if w.exists path
        then run_file w path
        else failure (codes "Error: File not found: " ++ path))
unfolding main dispatch file_branch
main-file_some w o path a h v f = rw (main, h, v, dispatch, f, file_branch, f, a.given path) refl

run_file-success :
    (w : World) (path : Bytes)
    → (run_file w path ≡ success [])
      ↔ ((v : w.Value) × (awaited : w.Value) × (w.eval_file path ≡ ok v) × (w.await v ≡ ok awaited))
unfolding run_file
run_file-success w path = elim (Result-cases (w.eval_file path)) [
  | inr (e, threw) ↦ (λ q. cc (sym (run_threw threw) ∙ q), λ q. cc (sym threw ∙ q.2))
  | inl (v, gave) ↦ elim (Result-cases (w.await v)) [
    | inl (awaited, done) ↦ (λ q. (v, awaited, gave, done), λ q. rw (run_file, gave, done) refl)
    | inr (e, threw) ↦ (
      λ q. cc (sym (await_threw gave threw) ∙ q),
      λ q. cc (sym threw ∙ ap w.await (ok_injective (sym gave ∙ q.2)) ∙ q.3),
    )
  ]
]
  where
    run_threw :
        {e : Bytes}
        → w.eval_file path ≡ throws e
        → run_file w path ≡ failure (codes "Error executing file: " ++ e)
    run_threw threw = rw (run_file, threw) refl

    await_threw :
        {v : w.Value} {e : Bytes}
        → w.eval_file path ≡ ok v
        → w.await v ≡ throws e
        → run_file w path ≡ failure (codes "Error awaiting result: " ++ e)
    await_threw gave threw = rw (run_file, gave, threw) refl

-- With `--file`, main succeeds exactly if the file exists, its evaluation gives a value and awaiting
-- this value does not throw; it does not matter which other options are given but help and version.
pub main-file :
    (w : World) (o : Options) (path : Bytes)
    → IsAs w.as_string
    → o.help ≡ false
    → o.version ≡ false
    → o.file ≡ some path
    → (main w o ≡ success []) ↔ (
        (w.exists path ≡ true)
        × ((v : w.Value) × (awaited : w.Value) × (w.eval_file path ≡ ok v)
            × (w.await v ≡ ok awaited)))
main-file w o path a h v f = elim (Bool-cases (w.exists path)) [
  | inl there ↦
      let e : main w o ≡ run_file w path = rw (main-file_some w o path a h v f, there) refl in
      let (fore, back) = run_file-success w path in
      (λ q. (there, fore (sym e ∙ q)), λ q. e ∙ back q.1)
  | inr missing ↦
      let e : main w o ≡ failure (codes "Error: File not found: " ++ path) =
        rw (main-file_some w o path a h v f, missing) refl in
      (λ q. cc (sym e ∙ q), λ q. cc (sym missing ∙ q.0))
]
