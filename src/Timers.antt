-- ===== src/Timers.antt =====
-- The timers of src/breeze-js/binding/std/infra.cc: `setTimeout`, `setInterval`, `clearTimeout`,
-- `clearInterval` and the rounds of `timer_thread_func`.
--
-- The list holds pointers that may be null, so a slot is an `Option Timer`. A callback and a context
-- are numbers that stand for them; `expired` says which contexts are gone when a round runs. The
-- list is not locked in the code; here a round and a call do not overlap. `elapsed` is an `int`, kept
-- as its 32-bit pattern: it wraps here where the addition overflows in the code, which is undefined.
-- For a delay of up to 2^31 - 30 it does not get there.
pub mod Round
pub mod Period
pub mod Ids
pub mod Callbacks
pub mod Threads
mod Tests
use breeze_js.Prelude.{
  ℕ, zero, suc, ◌+◌, ◌%◌, ◌^◌, Bool, true, false, not, ◌&&◌, List, [], ◌∷◌, ◌++◌, Option, none,
  some, ◌==◌, leb, if◌then◌else◌, length,
}
use breeze_js.Prelude.Int.{ℤ, pos, negsuc, to_int, ltb_ℤ}

pub record Timer : Type 0 where
  pub callback : ℕ
  pub ctx : ℕ
  pub delay : ℤ
  pub elapsed : ℕ
  pub repeat : Bool
  pub id : ℕ

abbrev pub Slot : Type 0
Slot = Option Timer

abbrev pub sleep_time : ℕ
sleep_time = 30

-- `timer->elapsed >= timer->delay`
unfoldable pub is_due : Timer → Bool
unfolding to_int
is_due t = not (ltb_ℤ (to_int t.elapsed) t.delay)

-- A due timer: its slot is kept for a repeating timer, and emptied otherwise.
abbrev pub fire : Timer → Slot
fire t = if t.repeat then some (record t { elapsed = 0 }) else none

-- The body of the loop over the timers: the slot that is left, and the callbacks pushed.
unfoldable pub visit : (ℕ → Bool) → Slot → Slot × List ℕ
unfolding is_due
visit expired none = (none, [])
visit expired (some t) =
    let later = record t { elapsed = (t.elapsed + sleep_time) % 2 ^ 32 } in
    if expired t.ctx
    then (none, [])
    else if is_due later
    then (fire later, t.callback ∷ [])
    else (some later, [])

-- `timers.erase(std::remove_if(…))`, of the empty slots.
abbrev pub keep_slot : Slot → List Slot → List Slot
keep_slot none rest = rest
keep_slot (some t) rest = some t ∷ rest

-- One round of timer_thread_func: the timers after it, and the callbacks to call, in order.
unfoldable pub round : (ℕ → Bool) → List Slot → List Slot × List ℕ
unfolding visit
round expired [] = ([], [])
round expired (s ∷ ss) =
    let (s', called) = visit expired s in
    let (rest, more) = round expired ss in (keep_slot s' rest, called ++ more)

-- What a callback does: it returns, or throws; the round catches what it throws and goes on. The
-- calls made, with the error reports written.
pub data Event : Type 0 where
  called : ℕ → Event
  reported : ℕ → Event

unfoldable pub call_all : (ℕ → Bool) → List ℕ → List Event
call_all throwing [] = []
call_all throwing (c ∷ cs) =
    called c ∷ ((if throwing c then reported c ∷ [] else []) ++ call_all throwing cs)

-- setTimeout and setInterval: the new timer's id, and the timers.
unfoldable pub set_timer : Bool → ℕ → ℤ → ℕ → List Slot → ℕ × List Slot
set_timer repeat callback delay ctx timers =
    let id = length timers + 1 in
    (
      id,
      timers
          ++ some (record {
            callback = callback;
            ctx = ctx;
            delay = delay;
            elapsed = 0;
            repeat = repeat;
            id = id;
          })
            ∷ [],
    )

abbrev pub set_timeout : ℕ → ℤ → ℕ → List Slot → ℕ × List Slot
set_timeout = set_timer false

abbrev pub set_interval : ℕ → ℤ → ℕ → List Slot → ℕ × List Slot
set_interval = set_timer true

-- `timer && timer->id == id`
abbrev pub has_id : ℕ → Slot → Bool
has_id id none = false
has_id id (some t) = t.id == id

-- clearTimeout: the first timer of that id is erased. clearInterval calls it.
unfoldable pub clear_timeout : ℕ → List Slot → List Slot
clear_timeout id [] = []
clear_timeout id (s ∷ ss) = if has_id id s then ss else s ∷ clear_timeout id ss

abbrev pub clear_interval : ℕ → List Slot → List Slot
clear_interval = clear_timeout
