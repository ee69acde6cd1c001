-- ===== src/EventLoop.antt =====
-- The task queue of `script_context` (src/breeze-js/script.cc and headers/breeze-js/script.h) as an
-- interleaving of threads: the JS thread in `run_event_loop`, any number of threads in `post`, and
-- one thread in `stop_event_loop_in_time` or at the head of `reset_runtime`.
--
-- `moodycamel::ConcurrentQueue` is not part of this repository: it is a list from which any element
-- may be taken, since it keeps no order among producers, and `try_dequeue` may fail at any time.
-- `task_queue_size` is a size_t and wraps at 2^64. A condition variable may wake spuriously.
pub mod Count
pub mod Wakeup
pub mod Tasks
pub mod Shutdown
pub mod Stop
pub mod Spec
pub mod Refines
pub mod InTime
pub mod Drains
pub mod Lost
pub mod Order
mod Tests
use breeze_js.Prelude.{
  ℕ, suc, ◌+◌, ◌-◌, ◌%◌, ◌^◌, ◌≤◌, ◌<◌, ◌≡◌, ◌≢◌, ◌⊎◌, List, [], ◌∷◌, ◌++◌, Option, none, some,
}

abbrev pub size_mod : ℕ
size_mod = 2 ^ 64

-- Where the JS thread stands in run_event_loop. A task is a number.
pub data JsPc : Type 0 where
  dequeues : JsPc  -- at `try_dequeue(task)`
  has_task : ℕ → JsPc  -- at `!shutdown_deadline || now() < *shutdown_deadline`
  subtracts : ℕ → JsPc  -- at `fetch_sub(1)`
  runs : ℕ → JsPc  -- at `task()`
  leaves : JsPc  -- at `if (shutdown_deadline && size == 0) break`
  locks : JsPc  -- at `unique_lock lock(cv_mutex)`
  tests : JsPc  -- in `wait`, at the predicate, with the mutex
  sleeps_next : JsPc  -- the predicate was false; still with the mutex
  sleeps : JsPc  -- blocked in the condition variable
  exited : JsPc

-- Where the stopping thread stands in stop_event_loop_in_time.
pub data StopPc : Type 0 where
  idle notifies joins joined : StopPc

pub record State : Type 0 where
  pub queue : List ℕ
  pub size : ℕ
  -- threads in `post`: behind `enqueue`, behind `fetch_add`, and behind the lock of `cv_mutex`
  pub enqueued : ℕ
  pub added : ℕ
  pub locked : ℕ
  pub js : JsPc
  pub stop : StopPc
  pub deadline : Option ℕ
  pub now : ℕ
  -- what has been posted, run, and taken from the queue but not run
  pub posted : List ℕ
  pub done : List ℕ
  pub dropped : List ℕ

-- Nobody holds `cv_mutex`: posting threads hold it for no other step of theirs.
abbrev pub IsUnlocked : JsPc → Type 0
IsUnlocked tests = ⊥
IsUnlocked sleeps_next = ⊥
IsUnlocked _ = Unit {0}

-- notify_one and notify_all: the JS thread wakes, if it sleeps, and takes the mutex again.
abbrev pub wake : JsPc → JsPc
wake sleeps = locks
wake pc = pc

-- `!shutdown_deadline || now < *shutdown_deadline`
abbrev pub MayRun : Option ℕ → ℕ → Type 0
MayRun none now = Unit {0}
MayRun (some d) now = now < d

abbrev pub IsLate : Option ℕ → ℕ → Type 0
IsLate none now = ⊥
IsLate (some d) now = d ≤ now

abbrev pub IsGiven : Option ℕ → Type 0
IsGiven none = ⊥
IsGiven (some d) = Unit {0}

pub data Step (s : State) : State → Type 0 where
  -- post
  enqueue :
      (task : ℕ)
      → Step s (record s {
        queue = s.queue ++ task ∷ [];
        posted = s.posted ++ task ∷ [];
        enqueued = suc s.enqueued;
      })
  fetch_add :
      (n : ℕ)
      → s.enqueued ≡ suc n
      → Step s (record s { enqueued = n; added = suc s.added; size = (s.size + 1) % size_mod })
  lock_unlock :
      (n : ℕ)
      → s.added ≡ suc n
      → IsUnlocked s.js
      → Step s (record s { added = n; locked = suc s.locked })
  notify_one : (n : ℕ) → s.locked ≡ suc n → Step s (record s { locked = n; js = wake s.js })
  -- run_event_loop
  try_dequeue :
      (before after : List ℕ) (task : ℕ)
      → s.js ≡ dequeues
      → s.queue ≡ before ++ task ∷ after
      → Step s (record s { queue = before ++ after; js = has_task task })
  dequeue_fails : s.js ≡ dequeues → Step s (record s { js = leaves })
  in_time :
      (task : ℕ)
      → s.js ≡ has_task task
      → MayRun s.deadline s.now
      → Step s (record s { js = subtracts task })
  too_late :
      (task : ℕ)
      → s.js ≡ has_task task
      → IsLate s.deadline s.now
      → Step s (record s { js = leaves; dropped = task ∷ s.dropped })
  fetch_sub :
      (task : ℕ)
      → s.js ≡ subtracts task
      → Step s (record s { js = runs task; size = (s.size + (size_mod - 1)) % size_mod })
  run_task :
      (task : ℕ) → s.js ≡ runs task → Step s (record s { js = dequeues; done = task ∷ s.done })
  break_loop : s.js ≡ leaves → IsGiven s.deadline → s.size ≡ 0 → Step s (record s { js = exited })
  go_on : s.js ≡ leaves → (s.deadline ≡ none) ⊎ (s.size ≢ 0) → Step s (record s { js = locks })
  lock_mutex : s.js ≡ locks → Step s (record s { js = tests })
  pred_true : s.js ≡ tests → IsGiven s.deadline ⊎ (s.size ≢ 0) → Step s (record s { js = dequeues })
  pred_false :
      s.js ≡ tests → s.deadline ≡ none → s.size ≡ 0 → Step s (record s { js = sleeps_next })
  block : s.js ≡ sleeps_next → Step s (record s { js = sleeps })
  wake_spuriously : s.js ≡ sleeps → Step s (record s { js = locks })
  -- stop_event_loop_in_time
  set_deadline :
      (timeout : ℕ)
      → s.stop ≡ idle
      → Step s (record s { stop = notifies; deadline = some (s.now + timeout) })
  notify_all : s.stop ≡ notifies → Step s (record s { stop = joins; js = wake s.js })
  join : s.stop ≡ joins → s.js ≡ exited → Step s (record s { stop = joined })
  -- reset_runtime, behind its join: the new JS thread enters the loop, with the old queue
  restart :
      s.stop ≡ joined
      → s.js ≡ exited
      → Step s (record s { stop = idle; deadline = none; js = dequeues })
  -- time
  tick : Step s (record s { now = suc s.now })

pub data Reach (s : State) : State → Type 0 where
  here : Reach s s
  next : {t u : State} → Reach s t → Step t u → Reach s u

-- The JS thread enters its loop.
abbrev pub initial : State
initial = record {
  queue = [];
  size = 0;
  enqueued = 0;
  added = 0;
  locked = 0;
  js = dequeues;
  stop = idle;
  deadline = none;
  now = 0;
  posted = [];
  done = [];
  dropped = [];
}
