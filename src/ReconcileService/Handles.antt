-- ===== src/ReconcileService/Handles.antt =====
-- What `handleDiff` does to the database, on every branch.
use trade_reconcile_system.Models.Result
use trade_reconcile_system.Base.{count_where, some, ℕ, ◌<◌, ◌≡◌, ◌⊎◌}
use trade_reconcile_system.Base.Bytes.{Bytes}
use trade_reconcile_system.Base.Calendar.{format_time}
use trade_reconcile_system.Base.Int.{pos, ℤ}
use trade_reconcile_system.Dao.Reconcile.{handle_rows, unhandled}
use trade_reconcile_system.Db.{Db}
use trade_reconcile_system.Db.Monad.{Env, Outcome, World, done, hang, thrown}
use trade_reconcile_system.Models.Json.{Json}
use trade_reconcile_system.Models.Result.{Result}
use trade_reconcile_system.Reconcile.{HandleStatus, handle_status_code}
use trade_reconcile_system.ReconcileService.Diffs.{action_status, handled_answer}

-- The action is known, an unhandled difference of the id was there, the answer reports it, and exactly
-- the unhandled rows of the id got the status, the remark and the time.
pub record DiffHandled (env : Env) (diff_id : ℤ) (action remark : Bytes) (db : Db)
    (r : Outcome (Result Json) × World) : Type 0 where
  pub new_status : HandleStatus
  pub known : action_status action ≡ some new_status
  pub was_unhandled : 0 < count_where (unhandled diff_id) db.diffs
  pub told : r.0 ≡ done (handled_answer diff_id new_status)
  pub stored : r.1.committed ≡ record db {
    diffs =
        handle_rows diff_id
          (handle_status_code new_status)
          remark
          (format_time (pos env.db_now))
          db.diffs;
  }

abbrev pub answer_code : Outcome (Result Json) → ℕ
answer_code (done r) = r.code
answer_code (thrown e) = 1
answer_code hang = 1

-- The database is unchanged, and the answer is no success.
abbrev pub Refused : Db → Outcome (Result Json) × World → Type 0
Refused db r = (r.1.committed ≡ db) × (0 < answer_code r.0)

abbrev pub HandleEnds : Env → ℤ → Bytes → Bytes → Db → Outcome (Result Json) × World → Type 0
HandleEnds env diff_id action remark db r =
    Refused db r ⊎ DiffHandled env diff_id action remark db r
