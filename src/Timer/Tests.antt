-- ===== src/Timer/Tests.antt =====
-- A relay and a daily task whose first statement fails, and witnesses.
use trade_reconcile_system.Base.{
  Bool, Option, [], arith, false, refl, some, true, ◌+◌, ◌<◌, ◌∷◌, ◌≡◌,
}
use trade_reconcile_system.Base.Bytes.{Bytes, codes}
use trade_reconcile_system.Db.{Db}
use trade_reconcile_system.Db.Monad.{Env, World}
use trade_reconcile_system.Ids.{fresh_generator}
use trade_reconcile_system.Models.Payment.{LocalMessage}
use trade_reconcile_system.ReconcileTask.{check_and_run}
use trade_reconcile_system.Relay.{relay}
use trade_reconcile_system.Timer.{
  Timer, TimerReach, instance_in, land, run_once, ticks, timer_begins, timer_goes_on,
}
use trade_reconcile_system.Timer.Faults.{relay-IsStuck}
use trade_reconcile_system.Timer.Flight.{IsSingle, IsStuck, TimerReach-IsSingle}

abbrev env : Env
env = record {
  clock = λ n. 1704067200000 + n;
  rounds = 5;
  db_now = 1704067200;
  write_compact = λ j. codes "{}";
  write_styled = λ j. codes "{ }";
}

abbrev shop : Db
shop = record {
  products = [];
  orders = [];
  idempotents = [];
  accounts = [];
  flows = [];
  payments = [];
  messages = [];
  notifies = [];
  batches = [];
  diffs = [];
}

abbrev start : World
start = record {
  committed = shop;
  working = shop;
  finished = false;
  generator = fresh_generator;
  faults = true ∷ [];
}

abbrev never : LocalMessage → Option Bool
never m = some false

abbrev empty_bill : Bytes → Option Bytes
empty_bill path = some []

abbrev flying : Timer
flying = run_once true (instance_in start)

abbrev relay_flies : TimerReach (relay env) (instance_in start) flying
relay_flies = timer_goes_on timer_begins (ticks (instance_in start) true)

abbrev daily_flies : TimerReach (check_and_run env) (instance_in start) flying
daily_flies = timer_goes_on timer_begins (ticks (instance_in start) true)

one_flies : 0 < flying.in_flight
unfolding run_once instance_in
one_flies = omega arith

scan_fails : flying.world.faults ≡ true ∷ []
unfolding run_once instance_in
scan_fails = refl

-- A second tick does nothing while the first task is in flight.
ticks_skip : run_once true flying ≡ flying
unfolding run_once instance_in
ticks_skip = refl

TimerReach-IsSingle_example : IsSingle flying
TimerReach-IsSingle_example = TimerReach-IsSingle (relay env) start relay_flies

relay-IsStuck_example : IsStuck (run_once true (land (relay env never flying.world) flying))
relay-IsStuck_example =
    relay-IsStuck env start never [] relay_flies one_flies scan_fails
      (timer_goes_on timer_begins (ticks (land (relay env never flying.world) flying) true))
