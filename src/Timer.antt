-- ===== src/Timer.antt =====
-- The guard of the two timed tasks: `runOnce` of src/tasks/MessageRelayTask.cc and of
-- src/tasks/ReconcileTask.cc. The timer calls it; it sets `running_` and submits the task to the
-- thread pool, and the task clears `running_` after its work. The work is a parameter, which may take
-- another course each time.
pub mod Flight
pub mod Faults
mod Tests
use trade_reconcile_system.Base.{Bool, false, if◌then◌else◌, suc, true, ℕ, ◌-◌, ◌<◌, ◌≢◌}
use trade_reconcile_system.Db.Monad.{M, Outcome, World, done, hang, thrown}

pub record Timer : Type 0 where
  -- running_
  pub running : Bool
  -- how many submitted tasks have not ended
  pub in_flight : ℕ
  pub world : World

-- The static instance, whose flag is `running_{false}`.
unfoldable pub instance_in : World → Timer
instance_in w = record { running = false; in_flight = 0; world = w }

-- `accepted` is the answer of the pool's `submit`, which the code does not read.
unfoldable pub run_once : Bool → Timer → Timer
run_once accepted t =
    if t.running
    then t
    else record t { running = true; in_flight = if accepted then suc t.in_flight else t.in_flight }

-- The end of the submitted task: its work is followed by `running_.store(false)`, which an exception
-- passes over on its way to the loop of the pool's thread.
unfoldable pub land : Outcome (Unit {0}) × World → Timer → Timer
land (done u, w) t = record t { running = false; in_flight = t.in_flight - 1; world = w }
land (thrown e, w) t = record t { in_flight = t.in_flight - 1; world = w }
land (hang, w) t = record t { world = w }

pub data TimerStep {B : Type 0} (work : B → M (Unit {0})) : Timer → Timer → Type 0 where
  ticks : (t : Timer) (accepted : Bool) → TimerStep work t (run_once accepted t)
  -- A task that is in flight, and that does not spin for ever, ends.
  lands :
      (t : Timer) (course : B)
      → 0 < t.in_flight
      → (work course t.world).0 ≢ hang
      → TimerStep work t (land (work course t.world) t)
  -- The rest of the process.
  rest_of_process : (t : Timer) (w : World) → TimerStep work t (record t { world = w })

pub data TimerReach {B : Type 0} (work : B → M (Unit {0})) (s : Timer) : Timer → Type 0 where
  timer_begins : TimerReach work s s
  timer_goes_on : {t u : Timer} → TimerReach work s t → TimerStep work t u → TimerReach work s u
