-- ===== src/ReconcileService/Bills.antt =====
-- What `run` does to the committed database, from the text of the bill file on.
use trade_reconcile_system.Base.{
  List, Option, Option-cases, count_where, inl, inr, none, refl, some, ◌≡◌, ◌⊎◌,
}
use trade_reconcile_system.Base.Bytes.{Bytes}
use trade_reconcile_system.Bill.{parse_lines, pieces}
use trade_reconcile_system.Dao.Reconcile.{of_date}
use trade_reconcile_system.Db.{Db}
use trade_reconcile_system.Db.Monad.{Env, Outcome, World, pure}
use trade_reconcile_system.Models.Json.{Json}
use trade_reconcile_system.Models.Result.{Result}
use trade_reconcile_system.Reconcile.{ReconcileSideRow}
use trade_reconcile_system.ReconcileService.{bill_path, channel_name, run, run_rows, run_text}
use trade_reconcile_system.ReconcileService.Atomic.{Ends, reconciled_db}
use trade_reconcile_system.ReconcileService.Refines.{run_rows-Ends}

-- The day had no batch, its bill file parses to rows, and the database has the specified batch of these
-- rows and their differences.
pub record Reconciles (read_bill : Bytes → Option Bytes) (bill_date : Bytes) (before after : Db)
    : Type 0 where
  pub bill : Bytes
  pub opened : read_bill (bill_path bill_date) ≡ some bill
  pub rows : List ReconcileSideRow
  pub parsed : parse_lines (pieces 10 bill) ≡ some rows
  pub batch_no : Bytes
  pub first_batch : count_where (of_date bill_date channel_name) before.batches ≡ 0
  pub stored : after ≡ reconciled_db batch_no bill_date rows before

abbrev pub RunsOn : (Bytes → Option Bytes) → Bytes → Db → Db → Type 0
RunsOn read_bill bill_date before after =
    (after ≡ before) ⊎ Reconciles read_bill bill_date before after

parsed-RunsOn :
    (read_bill : Bytes → Option Bytes) (bill_date bill : Bytes) (rows : List ReconcileSideRow)
    (db : Db) (r : Outcome (Result Json) × World)
    → read_bill (bill_path bill_date) ≡ some bill
    → parse_lines (pieces 10 bill) ≡ some rows
    → Ends bill_date rows db r
    → RunsOn read_bill bill_date db r.1.committed
parsed-RunsOn read_bill bill_date bill rows db r opens parses (inl e) = inl e.kept
parsed-RunsOn read_bill bill_date bill rows db r opens parses (inr e) = inr (record {
  bill = bill;
  opened = opens;
  rows = rows;
  parsed = parses;
  batch_no = e.batch_no;
  first_batch = e.first_batch;
  stored = e.stored;
})

run_text-RunsOn :
    (env : Env) (read_bill : Bytes → Option Bytes) (bill_date bill : Bytes)
    (rows : Option (List ReconcileSideRow)) (w : World)
    → read_bill (bill_path bill_date) ≡ some bill
    → parse_lines (pieces 10 bill) ≡ rows
    → RunsOn read_bill bill_date w.committed (run_text env bill_date rows w).1.committed
unfolding run_text pure
run_text-RunsOn env read_bill bill_date bill none w opens parses = inl refl
run_text-RunsOn env read_bill bill_date bill (some rows) w opens parses =
    parsed-RunsOn read_bill bill_date bill rows w.committed (run_rows env bill_date rows w) opens
      parses (run_rows-Ends env bill_date rows w)

-- However `run` of a day ends, the committed database is unchanged, or the day had no batch, its bill file
-- opened and parsed to rows, and the committed database is `reconciled_db` for these rows.
pub run-RunsOn :
    (env : Env) (read_bill : Bytes → Option Bytes) (bill_date : Bytes) (w : World)
    → RunsOn read_bill bill_date w.committed (run env read_bill bill_date w).1.committed
unfolding run pure
run-RunsOn env read_bill bill_date w = elim (Option-cases (read_bill (bill_path bill_date))) [
  | inl missing ↦ rw (missing, run) (inl refl)
  | inr (bill, opens) ↦
      rw (opens, run)
        (run_text-RunsOn env read_bill bill_date bill (parse_lines (pieces 10 bill)) w opens refl)
]
