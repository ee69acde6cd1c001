-- ===== src/Script/Eval.antt =====
-- When an evaluation gives a value.
use breeze_js.Prelude.{
  ◌≡◌, refl, sym, ap, ◌∙◌, ◌↔◌, inl, inr, Bool, true, false, Option, some, Option-cases,
  some_injective,
}
use breeze_js.Prelude.Result.{Result, ok, throws, ok_injective}
use breeze_js.Bytes.{Bytes}
use breeze_js.Script.{
  Engine, done, error_value, threw, executed, compiled, file_name, eval_string_impl, post_sync,
  eval_string, eval_file,
}

-- The future gives what the call gave.
post_sync_lem : {A : Type 0} (b : Bool) (f : Result A) → post_sync b f ≡ f
unfolding post_sync
post_sync_lem true f = refl
post_sync_lem false (ok a) = refl
post_sync_lem false (throws e) = refl

done_injective : {A : Type 0} {a b : A} → done a ≡ done b → a ≡ b
done_injective h = cc

module _ {F V : Type 0} (compile : Bytes → Bytes → Engine F)
    (eval_function : F → Bytes → Bytes → Engine V) where
  eval_string_lem :
      (b : Bool) (script filename : Bytes)
      → eval_string compile eval_function b script filename
        ≡ eval_string_impl compile eval_function script filename
  unfolding eval_string
  eval_string_lem true script filename = refl
  eval_string_lem false script filename =
      post_sync_lem false (eval_string_impl compile eval_function script filename)

  executed-ok :
      (filename : Bytes) (r : Engine V) (v : V) → (executed filename r ≡ ok v) ↔ (r ≡ done v)
  executed-ok filename (done w) v = (λ h. ap done (ok_injective h), λ h. ap (executed filename) h)
  executed-ok filename (error_value text stack) v = (λ h. cc, λ h. cc)
  executed-ok filename (threw what) v = (λ h. cc, λ h. cc)

  compiled-ok :
      (filename : Bytes) (c : Engine F) (v : V)
      → (compiled compile eval_function filename c ≡ ok v) ↔ (
          (func : F) × (c ≡ done func)
          × (eval_function func filename (file_name filename) ≡ done v))
  compiled-ok filename (done func) v =
      let (there, back) =
        executed-ok filename (eval_function func filename (file_name filename)) v in
      (
        λ h. (func, refl, there h),
        λ q.
            back
              (ap (λ f. eval_function f filename (file_name filename)) (done_injective q.1) ∙ q.2),
      )
  compiled-ok filename (error_value text stack) v = (λ h. cc, λ q. cc q.1)
  compiled-ok filename (threw what) v = (λ h. cc, λ q. cc q.1)

  -- eval_file gives a value exactly if the file can be read, its text compiles, and the run of the
  -- compiled module, with the path and its last part in its import.meta, gives this value; the
  -- thread of the caller does not matter.
  pub eval_file-ok_iff :
      (b : Bool) (read : Bytes → Option Bytes) (path : Bytes) (v : V)
      → (eval_file compile eval_function b read path ≡ ok v) ↔ (
          (script : Bytes) × (func : F) × (read path ≡ some script)
          × (compile script path ≡ done func)
          × (eval_function func path (file_name path) ≡ done v))
  unfolding eval_file eval_string_impl
  eval_file-ok_iff b read path v = elim (Option-cases (read path)) [
    | inl miss ↦ (λ h. cc (rw (eval_file, miss) at h), λ q. cc (sym miss ∙ q.2))
    | inr (script, found) ↦
        let e : eval_file compile eval_function b read path
            ≡ eval_string_impl compile eval_function script path =
          rw (eval_file, found) (eval_string_lem b script path) in
        let (there, back) = compiled-ok path (compile script path) v in
        (
          λ h. let (func, c, r) = there (sym e ∙ h) in (script, func, found, c, r),
          λ q.
              e
              ∙ back (q.1, ap (λ s. compile s path) (some_injective (sym found ∙ q.2)) ∙ q.3, q.4),
        )
  ]
