-- ===== src/Dao/Order/Once.antt =====
-- The conditional UPDATEs take effect once.
use trade_reconcile_system.Base.{List, arith, count_where, count_where-update_where, some, ◌≡◌}
use trade_reconcile_system.Base.Bytes.{Bytes}
use trade_reconcile_system.Dao.Order.{pay_rows, payable}
use trade_reconcile_system.Db.{OrderRow}
use trade_reconcile_system.Models.Order.{paid}

-- An order that was marked as paid is not marked a second time.
pub pay_rows-once :
    (order_no now : Bytes) (rows : List OrderRow)
    → count_where (payable order_no) (pay_rows order_no now rows) ≡ 0
unfolding pay_rows payable
pay_rows-once order_no now rows =
    count_where-update_where (payable order_no)
      (λ r. record r { status = paid; paid_at = some now }) rows (λ r h. ground arith)
