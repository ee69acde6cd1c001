-- ===== src/Bridge/Await/Releases.antt =====
-- What `Value::await` leaves behind.
use breeze_js.Prelude.{
  ◌≡◌, refl, ap, sym, ◌∙◌, subst, true, false, List, Option, none, some, arith, All,
}
use breeze_js.Bridge.{Context}
use breeze_js.Bridge.Uses.{IsBalanced, IsOnJs}
use breeze_js.Bridge.Await.{Look, Task, awaited}
use breeze_js.Bridge.Await.References.{is_polling, is_over, Holds, run_tasks-IsHeld, begun-IsHeld}

is_over-none : (o : Option Task) → is_over o ≡ true → o ≡ none
is_over-none none h = refl
is_over-none (some t) h = absurd (cc h)

-- However long the promise is pending and however it ends, the gone context included: when a
-- Value::await of a context with a script_ctx has ended, every reference it made has been given up
-- once, of each kind of object; `*poll_fn` is cleared, so that it no longer holds itself; no task is
-- posted; and all its uses of the engine were made by the JS thread, whatever thread awaits.
pub await-releases :
    {V : Type 0} (c : Context) (self : V) (looks : List (Look V))
    → c.script_ctx ≡ true
    → (awaited c self looks).done ≡ true
    → IsBalanced (awaited c self looks).uses
      × ((awaited c self looks).has_poll_fn ≡ false)
      × ((awaited c self looks).posted ≡ none)
      × All IsOnJs (awaited c self looks).uses
await-releases c self looks threaded d =
    let k = run_tasks-IsHeld c self threaded looks _ (begun-IsHeld c self threaded) in
    let over = is_over-none (awaited c self looks).posted (sym k.done_when_over ∙ d) in
    let h = subst (λ o. Holds (is_polling o) (awaited c self looks).uses) over k.holds in
    (λ p. omega (arith, h p), k.set_while_polling ∙ ap is_polling over, over, k.on_js)
