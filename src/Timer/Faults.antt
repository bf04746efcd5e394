-- ===== src/Timer/Faults.antt =====
-- A database error in the first statement of a timed task: src/tasks/MessageRelayTask.cc and
-- src/tasks/ReconcileTask.cc.
use trade_reconcile_system.Base.{Bool, List, Option, [], false, some, true, ◌+◌, ◌<◌, ◌∷◌, ◌≡◌}
use trade_reconcile_system.Base.Bytes.{Bytes}
use trade_reconcile_system.Dao.LocalMessage.{scan_pending}
use trade_reconcile_system.Dao.Reconcile.{has_batch_for_date}
use trade_reconcile_system.Db.{Db}
use trade_reconcile_system.Db.Monad.{
  Env, M, World, db_exception, exec_auto, exec_auto_on, pure, query, read_clock, resume, thrown,
  ◌>>=◌,
}
use trade_reconcile_system.Models.Payment.{LocalMessage}
use trade_reconcile_system.ReconcileService.{bill_path}
use trade_reconcile_system.ReconcileTask.{check_and_run, check_bill, run_unless_done, today_beijing}
use trade_reconcile_system.ReconcileTask.Once.{day_of}
use trade_reconcile_system.Relay.{relay}
use trade_reconcile_system.Timer.{Timer, TimerReach, instance_in, land}
use trade_reconcile_system.Timer.Flight.{IsStuck, thrown_for_ever}

failing_query :
    {A B : Type 0} (f : Db → A) (g : A → M B) (l rest : List Bool) (w : World)
    → l ≡ true ∷ rest
    → resume g (exec_auto_on (query f) l w) ≡ (thrown db_exception, record w { faults = rest })
unfolding exec_auto_on resume
failing_query f g [] rest w e = cc
failing_query f g (true ∷ l) rest w e = cc
failing_query f g (false ∷ l) rest w e = cc

relay-fault :
    (env : Env) (publish : LocalMessage → Option Bool) (w : World) (rest : List Bool)
    → w.faults ≡ true ∷ rest
    → relay env publish w ≡ (thrown db_exception, record w { faults = rest })
unfolding relay scan_pending exec_auto ◌>>=◌
relay-fault env publish w rest e = failing_query _ _ w.faults rest w e

check_and_run-fault :
    (env : Env) (read_bill : Bytes → Option Bytes) (w : World) (bill : Bytes) (rest : List Bool)
    → read_bill (bill_path (day_of env w)) ≡ some bill
    → w.faults ≡ true ∷ rest
    → (v : World) × (check_and_run env read_bill w ≡ (thrown db_exception, v))
unfolding check_and_run today_beijing read_clock pure ◌>>=◌ resume run_unless_done
    has_batch_for_date exec_auto
check_and_run-fault env read_bill w bill rest opens e =
    let g = w.generator in
    let asked = record w { generator = record g { readings = g.readings + 1 } } in
    (
      record asked { faults = rest },
      rw (opens, check_bill) (failing_query _ _ w.faults rest asked e),
    )

-- When the relay's scan of the outbox fails in the database, the relay never runs again: whatever
-- the timer and the rest of the process do from then on, the flag stays set and no relay is in
-- flight.
pub relay-IsStuck :
    (env : Env) (start : World) {t u : Timer} (publish : LocalMessage → Option Bool)
    (rest : List Bool)
    → TimerReach (relay env) (instance_in start) t
    → 0 < t.in_flight
    → t.world.faults ≡ true ∷ rest
    → TimerReach (relay env) (land (relay env publish t.world) t) u
    → IsStuck u
relay-IsStuck env start {t} publish rest reached flies fails later =
    thrown_for_ever (relay env) start db_exception (record t.world { faults = rest }) _ reached
      flies (relay-fault env publish t.world rest fails) later

-- When a bill of the day exists and the query for its batch fails in the database, the daily task
-- never runs again: the flag stays set and no round is in flight.
pub check_and_run-IsStuck :
    (env : Env) (start : World) {t u : Timer} (read_bill : Bytes → Option Bytes) (bill : Bytes)
    (rest : List Bool)
    → TimerReach (check_and_run env) (instance_in start) t
    → 0 < t.in_flight
    → read_bill (bill_path (day_of env t.world)) ≡ some bill
    → t.world.faults ≡ true ∷ rest
    → TimerReach (check_and_run env) (land (check_and_run env read_bill t.world) t) u
    → IsStuck u
check_and_run-IsStuck env start {t} read_bill bill rest reached flies opens fails later =
    let (v, threw) = check_and_run-fault env read_bill t.world bill rest opens fails in
    thrown_for_ever (check_and_run env) start db_exception v _ reached flies threw later
