-- ===== src/ReconcileTask/Tests.antt =====
-- A day with a bill, and witnesses.
use trade_reconcile_system.Base.{Option, [], false, if◌then◌else◌, none, refl, some, ◌+◌, ◌∷◌, ◌≡◌}
use trade_reconcile_system.Base.Bytes.{Bytes, codes, str_eq, str_eq_refl}
use trade_reconcile_system.Base.Int.{pos}
use trade_reconcile_system.Db.{Db, PaymentRow}
use trade_reconcile_system.Db.Monad.{Env, World}
use trade_reconcile_system.Ids.{fresh_generator}
use trade_reconcile_system.ReconcileService.{bill_path, run}
use trade_reconcile_system.ReconcileService.Bills.{RunsOn}
use trade_reconcile_system.ReconcileTask.{check_and_run}
use trade_reconcile_system.ReconcileTask.Once.{check_and_run-decides, clock_read, day_of, has_batch}

abbrev env : Env
env = record {
  clock = λ n. 1704067200000 + n;
  rounds = 5;
  db_now = 1704067200;
  write_compact = λ j. codes "{}";
  write_styled = λ j. codes "{ }";
}

abbrev paid_today : PaymentRow
paid_today = record {
  payment_no = codes "1";
  order_no = codes "42";
  channel = codes "MOCK";
  channel_trade_no = codes "T1";
  amount = pos 1990;
  status = 1;
  callback_time = codes "2024-01-01 08:00:00";
  raw_body = [];
}

abbrev shop : Db
shop = record {
  products = [];
  orders = [];
  idempotents = [];
  accounts = [];
  flows = [];
  payments = paid_today ∷ [];
  messages = [];
  notifies = [];
  batches = [];
  diffs = [];
}

abbrev start : World
start = record {
  committed = shop;
  working = shop;
  finished = false;
  generator = fresh_generator;
  faults = [];
}

abbrev bill : Bytes
bill = codes "T1,42,19.91,2024-01-01 08:00:00"

-- The only bill is the one of the day.
abbrev bills : Bytes → Option Bytes
bills path = if str_eq path (bill_path (day_of env start)) then some bill else none

opens_today : bills (bill_path (day_of env start)) ≡ some bill
opens_today = rw (str_eq_refl (bill_path (day_of env start))) refl

check_and_run-decides_example :
    ((check_and_run env bills start).1 ≡ (
      if has_batch (day_of env start) start
      then clock_read start
      else (run env bills (day_of env start) (clock_read start)).1))
    × RunsOn bills (day_of env start) start.committed (check_and_run env bills start).1.committed
check_and_run-decides_example = check_and_run-decides env bills bill start refl opens_today
