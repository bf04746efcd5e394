-- ===== src/ReconcileTask.antt =====
-- src/tasks/ReconcileTask.cc: the daily reconciliation, `checkAndRun`. The bill files are the parameter
-- `read_bill` of the service; the task sees whether a file opens.
pub mod Once
mod Tests
use trade_reconcile_system.Base.{Option, if◌then◌else◌, none, some, ℕ, ◌*◌, ◌+◌, ◌/◌}
use trade_reconcile_system.Base.Bytes.{Bytes}
use trade_reconcile_system.Base.Calendar.{format_date, gmtime}
use trade_reconcile_system.Base.Int.{pos}
use trade_reconcile_system.Dao.Reconcile.{has_batch_for_date}
use trade_reconcile_system.Db.Monad.{Env, M, pure, read_clock, ◌>>=◌, ◌>>◌}
use trade_reconcile_system.ReconcileService.{bill_path, channel_name, run}

-- std::chrono::hours(8), in milliseconds
abbrev pub eight_hours_ms : ℕ
eight_hours_ms = 8 * 3600 * 1000

-- The day in Beijing, from the system clock; `to_time_t` drops the milliseconds.
unfoldable pub today_beijing : Env → M Bytes
unfolding read_clock pure ◌>>=◌ format_date
today_beijing env =
    read_clock env >>= λ now. pure (format_date (gmtime (pos ((now + eight_hours_ms) / 1000))))

-- The second half of `checkAndRun`, for a day whose bill file opens. What the service answers is
-- logged only.
unfoldable pub run_unless_done : Env → (Bytes → Option Bytes) → Bytes → M (Unit {0})
unfolding has_batch_for_date run pure ◌>>=◌ ◌>>◌
run_unless_done env read_bill bill_date = has_batch_for_date bill_date channel_name >>= λ exists.
    if exists then pure tt else run env read_bill bill_date >> pure tt

unfoldable pub check_bill : Env → (Bytes → Option Bytes) → Bytes → M (Unit {0})
unfolding run_unless_done bill_path pure
check_bill env read_bill bill_date = elim (read_bill (bill_path bill_date)) [
  | none ↦ pure tt
  | some _ ↦ run_unless_done env read_bill bill_date
]

unfoldable pub check_and_run : Env → (Bytes → Option Bytes) → M (Unit {0})
unfolding today_beijing check_bill ◌>>=◌
check_and_run env read_bill = today_beijing env >>= check_bill env read_bill
