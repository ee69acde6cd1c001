-- ===== src/Timers/Threads.antt =====
-- The timers of infra.cc as an interleaving of two threads: the timer thread in timer_thread_func,
-- and the JS thread in setTimeout, setInterval, clearTimeout and clearInterval. The list is shared
-- without a lock; each step here is atomic.
--
-- The list of the code is `seen` and `ahead` together: what the loop over the timers has visited and
-- what it has not, with its iterator at the head of `ahead`. Behind the last timer the iterator is at the
-- end for good: a timer that is pushed then is in `ahead`, but is not visited in this round. To erase the timer at which the iterator
-- stands is undefined behaviour, and no step here.
pub mod Counts
pub mod Once
pub mod Cleared
pub mod Rounds
pub mod Pending
mod Tests
use breeze_js.Prelude.{
  ℕ, suc, ◌+◌, ◌≡◌, Bool, true, false, List, [], ◌∷◌, ◌++◌, Option, none, some, if◌then◌else◌,
  length,
}
use breeze_js.Prelude.Int.{ℤ}
use breeze_js.Timers.{Timer, Slot, visit, keep_slot, has_id, clear_timeout}
use breeze_js.Timers.Ids.{find_id}

-- Where the timer thread stands: in sleep_for, in the loop over the timers, or in the loop over the
-- callbacks; at `erases` the iterator has reached the end.
pub data TimerPc : Type 0 where
  sleeps visits erases calls : TimerPc

pub record State : Type 0 where
  pub seen : List Slot
  pub ahead : List Slot
  pub pc : TimerPc
  -- the callbacks of this round that are not called yet, and what has been called
  pub callbacks : List ℕ
  pub called : List ℕ
  -- the callbacks that were given to setTimeout and to setInterval, and how many rounds have begun
  pub timeouts : List ℕ
  pub intervals : List ℕ
  pub rounds : ℕ

-- `timers.erase(std::remove_if(…))`
abbrev pub compact : List Slot → List Slot
compact [] = []
compact (s ∷ ss) = keep_slot s (compact ss)

-- The test of the loop, with its iterator in front of these timers.
abbrev pub begin_at : List Slot → TimerPc
begin_at [] = erases
begin_at (s ∷ ss) = visits

-- What setTimeout and setInterval push.
abbrev pub new_slot : Bool → ℕ → ℤ → ℕ → ℕ → Slot
new_slot repeat callback delay ctx id = some (record {
  callback = callback;
  ctx = ctx;
  delay = delay;
  elapsed = 0;
  repeat = repeat;
  id = id;
})

-- The iterator of the loop does not stand at a timer of this id.
abbrev pub IsElsewhere : TimerPc → ℕ → List Slot → Type 0
IsElsewhere visits id (s ∷ ss) = has_id id s ≡ false
IsElsewhere _ id ss = Unit

pub data Step (s : State) : State → Type 0 where
  -- timer_thread_func
  wake_up :
      s.pc ≡ sleeps
      → Step s (record s { pc = begin_at s.ahead; callbacks = []; rounds = suc s.rounds })
  visit_next :
      (expired : ℕ → Bool) (slot : Slot) (rest : List Slot)
      → s.pc ≡ visits
      → s.ahead ≡ slot ∷ rest
      → Step s (record s {
        pc = begin_at rest;
        seen = s.seen ++ (visit expired slot).0 ∷ [];
        ahead = rest;
        callbacks = s.callbacks ++ (visit expired slot).1;
      })
  erase_empty :
      s.pc ≡ erases
      → Step s (record s { pc = calls; seen = []; ahead = compact (s.seen ++ s.ahead) })
  call_next :
      (c : ℕ) (cs : List ℕ)
      → s.pc ≡ calls
      → s.callbacks ≡ c ∷ cs
      → Step s (record s { callbacks = cs; called = s.called ++ c ∷ [] })
  sleep_again : s.pc ≡ calls → s.callbacks ≡ [] → Step s (record s { pc = sleeps })
  -- setTimeout, setInterval
  set_timeout :
      (callback : ℕ) (delay : ℤ) (ctx : ℕ)
      → Step s (record s {
        ahead = s.ahead ++ new_slot false callback delay ctx (length (s.seen ++ s.ahead) + 1) ∷ [];
        timeouts = callback ∷ s.timeouts;
      })
  set_interval :
      (callback : ℕ) (delay : ℤ) (ctx : ℕ)
      → Step s (record s {
        ahead = s.ahead ++ new_slot true callback delay ctx (length (s.seen ++ s.ahead) + 1) ∷ [];
        intervals = callback ∷ s.intervals;
      })
  -- clearTimeout, clearInterval
  clear_seen :
      (id : ℕ) (t : Timer)
      → find_id id s.seen ≡ some t
      → Step s (record s { seen = clear_timeout id s.seen })
  clear_ahead :
      (id : ℕ)
      → find_id id s.seen ≡ none
      → IsElsewhere s.pc id s.ahead
      → Step s (record s { ahead = clear_timeout id s.ahead })

pub data Reach (s : State) : State → Type 0 where
  here : Reach s s
  next : {t t' : State} → Reach s t → Step t t' → Reach s t'

abbrev pub initial : State
initial = record {
  seen = [];
  ahead = [];
  pc = sleeps;
  callbacks = [];
  called = [];
  timeouts = [];
  intervals = [];
  rounds = 0;
}
