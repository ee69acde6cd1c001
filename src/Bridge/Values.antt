-- ===== src/Bridge/Values.antt =====
-- `qjs::Value` (headers/breeze-js/quickjspp.hpp): its constructors, release, destructor and `as`, and
-- the references that the values of a program own.
pub mod Owned
pub mod Threads
use breeze_js.Prelude.{
  ℕ, ◌≡◌, Bool, true, false, not, ◌&&◌, ◌||◌, List, [], ◌∷◌, ◌++◌, if◌then◌else◌,
}
use breeze_js.Prelude.Result.{Result}
use breeze_js.Bridge.{Thread, Context, is_on_js_thread, post_task, Held, free_value, convert, Use}
use breeze_js.Script.{fill, get_future}

-- Whether `ctx` and `ctx_holder` are set; an object of the engine is a number.
pub record Value : Type 0 where
  pub ctx : Bool
  pub ctx_holder : Bool
  pub v : ℕ

-- Value(JSContext *, T &&), Value(std::weak_ptr<Context>, auto &&) and Value(JSValue &&)
abbrev pub from_context : ℕ → Value
from_context v = record { ctx = true; ctx_holder = false; v = v }

abbrev pub from_weak : ℕ → Value
from_weak v = record { ctx = true; ctx_holder = true; v = v }

abbrev pub from_js_value : ℕ → Value
from_js_value v = record { ctx = false; ctx_holder = false; v = v }

-- What a move and what `release` leave in the value.
abbrev pub moved_from : Value → Value
moved_from x = record x { ctx = false; ctx_holder = false }

abbrev pub released : Value → Value
released x = record x { ctx = false }

abbrev pub free_by : Thread → List Use
free_by t = record { thread = t; alive = true; act = free_value Held.value } ∷ []

-- Value::~Value, with `ctx_holder.value().expired()`
unfoldable pub value_destructor : Context → Bool → Value → List Use
value_destructor c expired x =
    if not x.ctx
    then []
    else if not x.ctx_holder || expired
    then []
    else if c.script_ctx && not (is_on_js_thread c)
    then post_task c free_by
    else free_by c.caller

abbrev pub convert_by : Bool → Thread → List Use
convert_by alive t = record { thread = t; alive = alive; act = convert Held.value } ∷ []

-- Value::as, by what js_traits::unwrap comes to
unfoldable pub value_as : {R : Type 0} → Context → Bool → Value → Result R → Result R × List Use
value_as c expired x unwrap =
    if x.ctx_holder && not expired && (c.script_ctx && not (is_on_js_thread c))
    then (get_future (fill unwrap), post_task c (convert_by (not expired)))
    else (unwrap, convert_by (not expired) c.caller)

-- The references to v that are freed, with those of the uses.
abbrev pub freed_by : List Use → ℕ → List ℕ → List ℕ
freed_by [] v freed = freed
freed_by (u ∷ us) v freed = v ∷ freed_by us v freed

-- The values of a program, in no order, and for each object its references: those that were made, that
-- are freed, and that somebody else owns. The context stays alive.
pub record Heap : Type 0 where
  pub values : List Value
  pub made : List ℕ
  pub freed : List ℕ
  pub elsewhere : List ℕ

-- An assignment takes its argument by a copy or a move, swaps it with the value, and destroys it.
-- `release` returns `v` also of a value that has no context and owns nothing.
pub data HeapStep (c : Context) (h : Heap) : Heap → Type 0 where
  construct_context :
      (v : ℕ) → HeapStep c h (record h { values = from_context v ∷ h.values; made = v ∷ h.made })
  construct_js :
      (v : ℕ) → HeapStep c h (record h { values = from_js_value v ∷ h.values; made = v ∷ h.made })
  construct_weak :
      (v : ℕ) → HeapStep c h (record h { values = from_weak v ∷ h.values; made = v ∷ h.made })
  copy :
      (before after : List Value) (x : Value)
      → h.values ≡ before ++ x ∷ after
      → HeapStep c h (record h { values = x ∷ h.values; made = x.v ∷ h.made })
  move :
      (before after : List Value) (x : Value)
      → h.values ≡ before ++ x ∷ after
      → HeapStep c h (record h { values = x ∷ before ++ moved_from x ∷ after })
  release :
      (before after : List Value) (x : Value)
      → h.values ≡ before ++ x ∷ after
      → HeapStep c h (record h {
        values = before ++ released x ∷ after;
        elsewhere = if x.ctx then x.v ∷ h.elsewhere else h.elsewhere;
      })
  destroy :
      (before after : List Value) (x : Value)
      → h.values ≡ before ++ x ∷ after
      → HeapStep c h (record h {
        values = before ++ after;
        freed = freed_by (value_destructor c false x) x.v h.freed;
      })
