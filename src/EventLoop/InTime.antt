-- ===== src/EventLoop/InTime.antt =====
-- States of the loop with time left, in which the counter is exact.
use breeze_js.Prelude.{◌+◌, ◌≤◌, ◌<◌, ◌≡◌, ap, ◌∙◌, [], arith, length}
use breeze_js.EventLoop.{
  size_mod, JsPc, has_task, subtracts, State, Step, MayRun, Reach, here, next,
}
use breeze_js.EventLoop.Count.{held, IsCounted, Step-IsCounted}

pub Reach-trans : {s t u : State} → Reach s t → Reach t u → Reach s u
Reach-trans r here = r
Reach-trans r (next q st) = next (Reach-trans r q) st

-- There is time left, nothing is dropped, no increment is to come, and the tasks fit the counter.
pub record InTime (s : State) : Type 0 where
  pub counted : IsCounted s
  pub early : MayRun s.deadline s.now
  pub none_dropped : s.dropped ≡ []
  pub none_enqueued : s.enqueued ≡ 0
  pub fits : length s.queue + held s.js < size_mod

-- A step of the JS thread that drops no task.
pub InTime-step :
    {s t : State}
    → Step s t
    → t.deadline ≡ s.deadline
    → t.now ≡ s.now
    → t.dropped ≡ s.dropped
    → t.enqueued ≡ s.enqueued
    → length t.queue + held t.js ≤ length s.queue + held s.js
    → InTime s
    → InTime t
InTime-step {s} {t} st d n o e l g = record {
  counted = Step-IsCounted st g.counted;
  early = rw (d, n) g.early;
  none_dropped = o ∙ g.none_dropped;
  none_enqueued = e ∙ g.none_enqueued;
  fits = omega (arith, l, g.fits);
}

pub held_le : (pc : JsPc) → held pc ≤ 1
held_le (has_task t) = omega arith
held_le (subtracts t) = omega arith
held_le _ = omega arith

-- The counter is exact.
pub InTime-size : {s : State} → InTime s → s.size ≡ length s.queue + held s.js
InTime-size {s} g = omega (
  arith,
  g.counted.balanced,
  g.counted.in_range,
  g.fits,
  g.none_enqueued,
  ap length g.none_dropped,
)
