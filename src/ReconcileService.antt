-- ===== src/ReconcileService.antt =====
-- src/services/ReconcileService.cc: reading a bill and `run`; `listDiffs` and
-- `handleDiff` are in ReconcileService/Diffs. The bill files are
-- the parameter `read_bill`: a path to the text of the file, when there is one.
use mathlib.Core.Option
use trade_reconcile_system.Models.Result
pub mod Steps
pub mod Atomic
pub mod Refines
pub mod Bills
pub mod Diffs
pub mod Handles
mod Tests
use trade_reconcile_system.Base.{
  Bool, List, Option, String, [], false, if◌then◌else◌, length, none, not, some, true, ◌&&◌, ◌++◌,
  ◌==◌, ◌∷◌,
}
use trade_reconcile_system.Base.Bytes.{Bytes, codes}
use trade_reconcile_system.Base.Int.{pos, to_i64, ℤ, ◌+ℤ◌}
use trade_reconcile_system.Bill.{parse_lines, pieces}
use trade_reconcile_system.Dao.Reconcile.{has_batch_for_date, insert_batch, insert_diff}
use trade_reconcile_system.Db.{Db, PaymentRow}
use trade_reconcile_system.Db.Monad.{
  Env, Exception, M, Outcome, World, biz, commit, db_exception, done, exec, hang, next_id, pure,
  query, require, std_exception, thrown, transaction, ◌>>=◌, ◌>>◌,
}
use trade_reconcile_system.Db.Text.{sql_eq}
use trade_reconcile_system.Models.ErrCode.{
  ErrCode, db_error, internal_error, reconcile_batch_status_invalid, reconcile_bill_parse_failed,
  to_message,
}
use trade_reconcile_system.Models.Json.{Json, end, member, number, object, text}
use trade_reconcile_system.Models.Result.{Result, fail, ok}
use trade_reconcile_system.Reconcile.{
  ReconcileBatch, ReconcileDiff, ReconcileSideRow, balanced, batch_status_code, has_diff, to_handle,
}
use trade_reconcile_system.Reconcile.Classify.{ClassifiedDiff, classify_reconcile_diffs}

abbrev pub channel_name : Bytes
channel_name = codes "MOCK"

unfoldable pub bill_path : Bytes → Bytes
bill_path bill_date = codes "scripts/bills/bill_" ++ bill_date ++ codes ".csv"

starts_with : Bytes → Bytes → Bool
starts_with [] s = true
starts_with (c ∷ p) [] = false
starts_with (c ∷ p) (d ∷ s) = c == d && starts_with p s

-- The WHERE clause of step 3: `callback_time` from the start of the day to the start of the next,
-- which for texts YYYY-MM-DD HH:MM:SS are those that begin with the date.
unfoldable pub paid_on : Bytes → PaymentRow → Bool
unfolding starts_with
paid_on bill_date r =
    sql_eq r.channel channel_name && r.status == 1 && starts_with bill_date r.callback_time

local_row : PaymentRow → ReconcileSideRow
local_row r = record {
  channel_trade_no = r.channel_trade_no;
  order_no = r.order_no;
  amount_fen = r.amount;
}

local_rows_of : Bytes → List PaymentRow → List ReconcileSideRow
unfolding local_row
local_rows_of bill_date [] = []
local_rows_of bill_date (r ∷ rows) =
    let rest = local_rows_of bill_date rows in
    if paid_on bill_date r then local_row r ∷ rest else rest

unfoldable pub local_rows : Bytes → Db → List ReconcileSideRow
unfolding local_rows_of
local_rows bill_date db = local_rows_of bill_date db.payments

-- The totals of step 5, in int64_t.
unfoldable pub total_from : ℤ → List ReconcileSideRow → ℤ
total_from total [] = total
total_from total (r ∷ rows) = total_from (to_i64 (total +ℤ r.amount_fen)) rows

unfoldable pub new_batch :
    Bytes
    → Bytes
    → List ReconcileSideRow
    → List ReconcileSideRow
    → List ClassifiedDiff
    → ReconcileBatch
unfolding total_from
new_batch batch_no bill_date local channel classified = record {
  batch_no = batch_no;
  bill_date = bill_date;
  channel = channel_name;
  total_count = length local;
  total_amount_fen = total_from (pos 0) local;
  channel_count = length channel;
  channel_amount_fen = total_from (pos 0) channel;
  diff_count = length classified;
  status = if length classified == 0 then balanced else has_diff;
}

unfoldable pub new_diff : Bytes → ClassifiedDiff → ReconcileDiff
new_diff batch_no d = record {
  batch_no = batch_no;
  order_no = d.order_no;
  channel_trade_no = d.channel_trade_no;
  local_amount_fen = d.local_fen;
  channel_amount_fen = d.channel_fen;
  diff_type = d.type;
  diff_amount_fen = d.diff_fen;
  handle_status = to_handle;
  handle_remark = [];
  handled_at = [];
}

-- The loop of step 5.
unfoldable pub insert_diffs : Bytes → List ClassifiedDiff → M (Unit {0})
unfolding new_diff insert_diff pure ◌>>◌
insert_diffs batch_no [] = pure tt
insert_diffs batch_no (d ∷ rest) = insert_diff (new_diff batch_no d) >> insert_diffs batch_no rest

unfoldable pub batch_answer : ReconcileBatch → Result Json
batch_answer b =
    Result.ok
      (object (
        member "batchNo" (text b.batch_no) (
          member "diffCount" (number (pos b.diff_count))
            (member "status" (number (pos (batch_status_code b.status))) end))))
      b.bill_date

unfoldable pub store_batch : ReconcileBatch → List ClassifiedDiff → M (Result Json)
unfolding insert_batch insert_diffs commit batch_answer
store_batch batch classified = do
  insert_batch batch
  insert_diffs batch.batch_no classified
  commit
  pure (batch_answer batch)

-- Steps 3 to 5.
unfoldable pub compare_rows : Env → Bytes → List ReconcileSideRow → M (Result Json)
unfolding local_rows classify_reconcile_diffs new_batch store_batch next_id
compare_rows env bill_date channel_rows = do
  local ← exec (query (local_rows bill_date))
  let classified = classify_reconcile_diffs local channel_rows
  batch_no ← next_id env
  store_batch (new_batch batch_no bill_date local channel_rows classified) classified

-- Steps 2 to 5.
unfoldable pub body : Env → Bytes → List ReconcileSideRow → M (Result Json)
unfolding has_batch_for_date compare_rows
body env bill_date channel_rows = do
  exists ← has_batch_for_date bill_date channel_name
  require (not exists) (biz reconcile_batch_status_invalid "该日期已对账，勿重复跑批")
  compare_rows env bill_date channel_rows

abbrev pub failed : ErrCode → String → Bytes → Result Json
failed code message request_id = Result.fail code message request_id

unfoldable pub answer_of : Bytes → Exception → Result Json
answer_of bill_date (biz code message) = failed code message bill_date
answer_of bill_date db_exception = failed db_error (to_message db_error) bill_date
answer_of bill_date std_exception = failed internal_error (to_message internal_error) bill_date

unfoldable pub caught : Bytes → Outcome (Result Json) × World → Outcome (Result Json) × World
unfolding answer_of
caught bill_date (done o, w) = (done o, w)
caught bill_date (thrown e, w) = (done (answer_of bill_date e), w)
caught bill_date (hang, w) = (hang, w)

unfoldable pub run_rows : Env → Bytes → List ReconcileSideRow → M (Result Json)
unfolding caught transaction body
run_rows env bill_date channel_rows w =
    caught bill_date (transaction (body env bill_date channel_rows) w)

run_text : Env → Bytes → Option (List ReconcileSideRow) → M (Result Json)
unfolding run_rows pure
run_text env bill_date none = pure (failed reconcile_bill_parse_failed "账单行解析失败" bill_date)
run_text env bill_date (some rows) = run_rows env bill_date rows

unfoldable pub run : Env → (Bytes → Option Bytes) → Bytes → M (Result Json)
unfolding run_text parse_lines pieces bill_path pure
run env read_bill bill_date = elim (read_bill (bill_path bill_date)) [
  | none ↦ pure (failed reconcile_bill_parse_failed "账单文件不存在（先用 scripts/gen_bill.sh 生成）" bill_date)
  | some bill ↦ run_text env bill_date (parse_lines (pieces 10 bill))
]
