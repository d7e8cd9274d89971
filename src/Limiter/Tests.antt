-- ===== src/Limiter/Tests.antt =====
-- Runs of the limiter, and the theorems at them.
use po_c_sqlagent.Base.{
  suc, min, max, ◌/◌, ◌+◌, false, ◌≡◌, refl, ◌↔◌, ◌<◌, some, [], ok, All, In, arith,
}
use po_c_sqlagent.Limiter.Slots.{
  Waiter, Limiter, create, enter, turn, granted, grant, leave, record_pressure,
}
use po_c_sqlagent.Limiter.Turns.{NotBefore, turn-granted}
use po_c_sqlagent.Limiter.Reached.{
  History, created, entered, got_slot, IsBounded, History-IsBounded, History-leave,
}
use po_c_sqlagent.Limiter.Recovery.{windows, pressure-recovers}

limiter_runs : Unit {0}
unfolding create enter turn leave windows
limiter_runs = tt

-- Two slots, a window of three successes.
abbrev fresh : Limiter
fresh = record {
  minimum = 1;
  maximum = 4;
  stable_window = 3;
  limit = 2;
  in_flight = 0;
  successes = 0;
  reductions = 0;
  sequence = 0;
  waiters = [];
}

fresh_is : create 2 1 4 3 ≡ ok fresh
unfolding limiter_runs
fresh_is = refl

-- The learner came first, an interactive caller second.
abbrev learner : Waiter
learner = record { priority = 10; sequence = 1 }

abbrev caller : Waiter
caller = record { priority = 0; sequence = 2 }

abbrev busy : Limiter
busy = (enter 0 (enter 10 fresh).0).0

busy-History : History 0 busy
busy-History = entered (entered (created 2 1 4 3 fresh_is) 10) 0

caller_first : turn caller false busy ≡ granted (grant caller busy)
unfolding limiter_runs
caller_first = refl

turn-granted_example :
    ((l : Limiter) × (turn caller false busy ≡ granted l))
    ↔ (In caller busy.waiters × All (NotBefore caller) busy.waiters × (busy.in_flight < busy.limit))
turn-granted_example = turn-granted caller false busy

served : History 1 (grant caller busy)
served = got_slot busy-History caller false caller_first

History-IsBounded_example : IsBounded 1 (grant caller busy)
History-IsBounded_example = History-IsBounded served

History-leave_example :
    (l : Limiter) × (leave (some "HTTP 429") (grant caller busy) ≡ ok l)
    × (suc l.in_flight ≡ (grant caller busy).in_flight)
    × (l.waiters ≡ (grant caller busy).waiters)
    × IsBounded 0 l
History-leave_example = History-leave served (some "HTTP 429")

pressure-recovers_example : (windows 2 (record_pressure fresh)).limit ≡ min 4 (max 1 (2 / 2) + 2)
pressure-recovers_example = pressure-recovers 2 fresh (omega arith) (omega arith) (omega arith)
