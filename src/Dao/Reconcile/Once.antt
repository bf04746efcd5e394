-- ===== src/Dao/Reconcile/Once.antt =====
-- A difference is handled once.
use trade_reconcile_system.Base.{
  List, arith, count_where, count_where-update_where, some, ℕ, ◌<◌, ◌≡◌,
}
use trade_reconcile_system.Base.Bytes.{Bytes}
use trade_reconcile_system.Base.Int.{ℤ}
use trade_reconcile_system.Dao.Reconcile.{handle_rows, unhandled}
use trade_reconcile_system.Db.{ReconcileDiffRow}

-- After `handleDiff` with the status of one of the two actions, no unhandled difference of that id is left.
pub handle_rows-once :
    (id : ℤ) (status : ℕ) (remark now : Bytes) (rows : List ReconcileDiffRow)
    → 0 < status
    → count_where (unhandled id) (handle_rows id status remark now rows) ≡ 0
unfolding handle_rows unhandled
handle_rows-once id status remark now rows h =
    count_where-update_where (unhandled id)
      (λ r. record r { handle_status = status; handle_remark = some remark; handled_at = some now })
      rows (λ r k. ground arith)
