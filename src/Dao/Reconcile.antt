-- ===== src/Dao/Reconcile.antt =====
-- src/dao/ReconcileDao.cc. A bill date is a text of the form YYYY-MM-DD.
pub mod Once
use mathlib.Core.Option
use trade_reconcile_system.Base.{
  Bool, List, Option, [], count_where, find, if◌then◌else◌, length, ltb, map, none, some, suc,
  update_where, zero, ℕ, ◌&&◌, ◌++◌, ◌+◌, ◌==◌, ◌^◌, ◌||◌, ◌∷◌,
}
use trade_reconcile_system.Base.Bytes.{Bytes, str_eq}
use trade_reconcile_system.Base.Calendar.{format_time}
use trade_reconcile_system.Base.Int.{eq_ℤ, negsuc, pos, ℤ}
use trade_reconcile_system.Dao.{fits_decimal, fits_width}
use trade_reconcile_system.Db.{ReconcileBatchRow, ReconcileDiffRow}
use trade_reconcile_system.Db.Monad.{Env, M, Statement, exec, exec_auto, query}
use trade_reconcile_system.Db.Text.{cast_decimal, sql_eq}
use trade_reconcile_system.Money.{fen_to_yuan_string}
use trade_reconcile_system.Reconcile.{
  HandleStatus, ReconcileBatch, ReconcileDiff, ReconcileDiffType, amount_mismatch,
  batch_status_code, channel_only, diff_type_code, ignored, local_only, to_handle, verified,
}

unfoldable pub batch_row : ReconcileBatch → ReconcileBatchRow
batch_row b = record {
  batch_no = b.batch_no;
  bill_date = b.bill_date;
  channel = b.channel;
  total_count = b.total_count;
  total_amount = cast_decimal (fen_to_yuan_string b.total_amount_fen);
  channel_count = b.channel_count;
  channel_amount = cast_decimal (fen_to_yuan_string b.channel_amount_fen);
  diff_count = b.diff_count;
  status = batch_status_code b.status;
}

fits_count : ℕ → Bool
fits_count n = ltb n (2 ^ 32)

unfoldable pub fits_batch : ReconcileBatchRow → Bool
unfolding fits_count
fits_batch r =
    fits_width 32 r.batch_no
    && length r.bill_date == 10
    && fits_width 16 r.channel
    && fits_count r.total_count
    && fits_decimal r.total_amount
    && fits_count r.channel_count
    && fits_decimal r.channel_amount
    && fits_count r.diff_count

abbrev pub of_date : Bytes → Bytes → ReconcileBatchRow → Bool
of_date bill_date channel r = str_eq r.bill_date bill_date && sql_eq r.channel channel

-- uk_batch_no and uk_date_channel
unfoldable pub batch_clashes : ReconcileBatchRow → ReconcileBatchRow → Bool
batch_clashes r s = sql_eq s.batch_no r.batch_no || of_date r.bill_date r.channel s

unfoldable pub insert_batch_row : ReconcileBatchRow → Statement (Unit {0})
unfolding fits_batch batch_clashes
insert_batch_row r db =
    if fits_batch r
    then elim (find (batch_clashes r) db.batches) [
      | none ↦ some (tt, record db { batches = db.batches ++ r ∷ [] })
      | some _ ↦ none
    ]
    else none

unfoldable pub insert_batch : ReconcileBatch → M (Unit {0})
unfolding insert_batch_row batch_row
insert_batch b = exec (insert_batch_row (batch_row b))

-- The row that the INSERT writes: status 0, nothing handled.
unfoldable pub diff_row : ℕ → ReconcileDiff → ReconcileDiffRow
diff_row id d = record {
  id = id;
  batch_no = d.batch_no;
  order_no = d.order_no;
  channel_trade_no = d.channel_trade_no;
  local_amount = cast_decimal (fen_to_yuan_string d.local_amount_fen);
  channel_amount = cast_decimal (fen_to_yuan_string d.channel_amount_fen);
  diff_type = diff_type_code d.diff_type;
  diff_amount = cast_decimal (fen_to_yuan_string d.diff_amount_fen);
  handle_status = 0;
  handle_remark = none;
  handled_at = none;
}

unfoldable pub fits_diff : ReconcileDiffRow → Bool
fits_diff r =
    fits_width 32 r.batch_no
    && fits_width 32 r.order_no
    && fits_width 64 r.channel_trade_no
    && fits_decimal r.local_amount
    && fits_decimal r.channel_amount
    && fits_decimal r.diff_amount

unfoldable pub insert_diff_row : ReconcileDiff → Statement (Unit {0})
unfolding diff_row fits_diff
insert_diff_row d db =
    let r = diff_row (length db.diffs + 1) d in
    if fits_diff r then some (tt, record db { diffs = db.diffs ++ r ∷ [] }) else none

unfoldable pub insert_diff : ReconcileDiff → M (Unit {0})
unfolding insert_diff_row
insert_diff d = exec (insert_diff_row d)

-- A connection of its own, outside the transaction.
unfoldable pub has_batch_for_date : Bytes → Bytes → M Bool
has_batch_for_date bill_date channel =
    exec_auto (query (λ db. ltb 0 (count_where (of_date bill_date channel) db.batches)))

diff_type_of : ℕ → ReconcileDiffType
diff_type_of n = if n == 1 then local_only else if n == 2 then channel_only else amount_mismatch

handle_status_of : ℕ → HandleStatus
handle_status_of n = if n == 0 then to_handle else if n == 1 then verified else ignored

-- IFNULL(…, '')
or_empty : Option Bytes → Bytes
or_empty none = []
or_empty (some s) = s

unfoldable pub diff_of_row : ReconcileDiffRow → ReconcileDiff
unfolding diff_type_of handle_status_of or_empty
diff_of_row r = record {
  batch_no = r.batch_no;
  order_no = r.order_no;
  channel_trade_no = r.channel_trade_no;
  local_amount_fen = r.local_amount;
  channel_amount_fen = r.channel_amount;
  diff_type = diff_type_of r.diff_type;
  diff_amount_fen = r.diff_amount;
  handle_status = handle_status_of r.handle_status;
  handle_remark = or_empty r.handle_remark;
  handled_at = or_empty r.handled_at;
}

-- The WHERE clause of `listDiffs`: the status is a condition only from 0 on.
listed : Bytes → ℤ → ReconcileDiffRow → Bool
listed batch_no (pos handle_status) r =
    sql_eq r.batch_no batch_no && r.handle_status == handle_status
listed batch_no (negsuc _) r = sql_eq r.batch_no batch_no

first_listed : (ReconcileDiffRow → Bool) → ℕ → List ReconcileDiffRow → List ReconcileDiffRow
first_listed p limit [] = []
first_listed p zero (r ∷ rows) = []
first_listed p (suc limit) (r ∷ rows) =
    let taken = first_listed p limit rows in
    let passed_over = first_listed p (suc limit) rows in if p r then r ∷ taken else passed_over

-- A negative LIMIT is an error of the statement.
pub limited : Bytes → ℤ → ℤ → Statement (List ReconcileDiff)
unfolding listed first_listed diff_of_row
limited batch_no handle_status (pos limit) db =
    some (map diff_of_row (first_listed (listed batch_no handle_status) limit db.diffs), db)
limited batch_no handle_status (negsuc _) db = none

unfoldable pub select_diffs : Bytes → ℤ → ℤ → M (List ReconcileDiff)
unfolding limited
select_diffs batch_no handle_status limit = exec_auto (limited batch_no handle_status limit)

abbrev pub has_diff_id : ℤ → ReconcileDiffRow → Bool
has_diff_id id r = eq_ℤ (pos r.id) id

-- The SELECT does not read `handled_at`.
unfoldable pub get_diff_by_id : ℤ → M (Option ReconcileDiff)
unfolding diff_of_row
get_diff_by_id id = exec_auto (
    query (λ db.
      Option.map (λ r. record (diff_of_row r) { handled_at = [] })
        (find (has_diff_id id) db.diffs)))

unfoldable pub unhandled : ℤ → ReconcileDiffRow → Bool
unhandled id r = has_diff_id id r && r.handle_status == 0

unfoldable pub handle_rows : ℤ → ℕ → Bytes → Bytes → List ReconcileDiffRow → List ReconcileDiffRow
unfolding unhandled
handle_rows id handle_status remark now = update_where (unhandled id) (λ r. record r {
  handle_status = handle_status;
  handle_remark = some remark;
  handled_at = some now;
})

-- The UPDATE; a remark wider than its column refuses it when a row matches.
unfoldable pub update_diff : Env → ℤ → ℕ → Bytes → Statement ℕ
unfolding handle_rows unhandled
update_diff env id handle_status remark db =
    let affected = count_where (unhandled id) db.diffs in
    if affected == 0 || fits_width 255 remark
    then some (
      affected,
      record db {
        diffs = handle_rows id handle_status remark (format_time (pos env.db_now)) db.diffs;
      },
    )
    else none

unfoldable pub mark_handled : Env → ℤ → ℕ → Bytes → M ℕ
unfolding update_diff
mark_handled env id handle_status remark = exec_auto (update_diff env id handle_status remark)
