-- ===== src/ReconcileService/Atomic.antt =====
-- What `run` may do to the committed database, and what its steps leave alone.
use trade_reconcile_system.Models.Result
use trade_reconcile_system.Base.{
  List, Option, String, [], ap, count_where, length, none, ◌++◌, ◌+◌, ◌∷◌, ◌≡◌, ◌≢◌, ◌⊎◌,
}
use trade_reconcile_system.Base.Bytes.{Bytes}
use trade_reconcile_system.Dao.Reconcile.{batch_row, insert_batch, insert_diff, of_date}
use trade_reconcile_system.Db.{Db}
use trade_reconcile_system.Db.Monad.{Exception, Outcome, World, done, hang, thrown}
use trade_reconcile_system.Db.Monad.Laws.{>>-Keeps, >>=-Keeps, Keeps, exec-Keeps, pure-Keeps}
use trade_reconcile_system.Models.ErrCode.{ErrCode}
use trade_reconcile_system.Models.Json.{Json}
use trade_reconcile_system.Models.Result.{Result, fail, ok}
use trade_reconcile_system.Reconcile.{ReconcileBatch, ReconcileSideRow}
use trade_reconcile_system.Reconcile.Classify.{ClassifiedDiff, classify_reconcile_diffs}
use trade_reconcile_system.ReconcileService.{
  batch_answer, channel_name, failed, insert_diffs, local_rows, new_batch,
}
use trade_reconcile_system.ReconcileService.Steps.{diff_rows}

-- The batch of a day, from the payments of the day and the rows of the bill.
abbrev pub batch_for : Bytes → Bytes → List ReconcileSideRow → Db → ReconcileBatch
batch_for batch_no bill_date channel_rows db =
    let local = local_rows bill_date db in
    new_batch batch_no bill_date local channel_rows (classify_reconcile_diffs local channel_rows)

-- The specification of a stored batch, on the database: the batch and one row for each difference.
unfoldable pub reconciled_db : Bytes → Bytes → List ReconcileSideRow → Db → Db
reconciled_db batch_no bill_date channel_rows db = record db {
  batches = db.batches ++ batch_row (batch_for batch_no bill_date channel_rows db) ∷ [];
  diffs =
      db.diffs
      ++ diff_rows batch_no (length db.diffs + 1)
          (classify_reconcile_diffs (local_rows bill_date db) channel_rows);
}

-- The call reports no batch, and the committed database is what it was.
pub record Unchanged (db : Db) (r : Outcome (Result Json) × World) : Type 0 where
  pub kept : r.1.committed ≡ db
  pub untold : (b : ReconcileBatch) → r.0 ≢ done (batch_answer b)

-- The call reports the batch of a day that had none, and the database is the specified one.
pub record Reconciled (bill_date : Bytes) (channel_rows : List ReconcileSideRow) (db : Db)
    (r : Outcome (Result Json) × World) : Type 0 where
  pub batch_no : Bytes
  pub first_batch : count_where (of_date bill_date channel_name) db.batches ≡ 0
  pub told : r.0 ≡ done (batch_answer (batch_for batch_no bill_date channel_rows db))
  pub stored : r.1.committed ≡ reconciled_db batch_no bill_date channel_rows db

abbrev pub Ends : Bytes → List ReconcileSideRow → Db → Outcome (Result Json) × World → Type 0
Ends bill_date channel_rows db r = Unchanged db r ⊎ Reconciled bill_date channel_rows db r

ruleset keeping = (>>=-Keeps, >>-Keeps, pure-Keeps, exec-Keeps)

pub insert_batch-Keeps : (b : ReconcileBatch) → Keeps (insert_batch b)
unfolding insert_batch
insert_batch-Keeps b = search keeping

pub insert_diffs-Keeps :
    (batch_no : Bytes) (l : List ClassifiedDiff) → Keeps (insert_diffs batch_no l)
unfolding insert_diffs insert_diff
insert_diffs-Keeps batch_no [] = pure-Keeps tt
insert_diffs-Keeps batch_no (d ∷ rest) = >>-Keeps (exec-Keeps _) (insert_diffs-Keeps batch_no rest)

pub thrown-Unchanged :
    (db : Db) (e : Exception) (u : World) → u.committed ≡ db → Unchanged db (thrown e, u)
thrown-Unchanged db e u h = record { kept = h; untold = λ b k. cc k }

pub hang-Unchanged : (db : Db) (u : World) → u.committed ≡ db → Unchanged db (hang, u)
hang-Unchanged db u h = record { kept = h; untold = λ b k. cc k }

abbrev payload_of : Outcome (Result Json) → Option Json
payload_of (done r) = r.payload
payload_of _ = none

pub failed-Unchanged :
    (code : ErrCode) (message : String) (request_id : Bytes) (db : Db) (u : World)
    → u.committed ≡ db
    → Unchanged db (done (failed code message request_id), u)
unfolding batch_answer Result.ok Result.fail
failed-Unchanged code message request_id db u h = record {
  kept = h;
  untold = λ b k. cc (ap payload_of k);
}
