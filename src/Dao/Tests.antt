-- ===== src/Dao/Tests.antt =====
-- A shelf with two products, and witnesses.
use trade_reconcile_system.Base.{All, List, [], arith, count_where, none, ◌*◌, ◌+◌, ◌∷◌, ◌≡◌}
use trade_reconcile_system.Base.Bytes.{codes}
use trade_reconcile_system.Base.Int.{negsuc, pos}
use trade_reconcile_system.Dao.Account.{charge_rows}
use trade_reconcile_system.Dao.Account.Balance.{IsSolvent, charge_rows-IsSolvent}
use trade_reconcile_system.Dao.Product.{deduct_products, deductible}
use trade_reconcile_system.Dao.Product.Stock.{deduct_products-total_stock, total_stock}
use trade_reconcile_system.Db.{AccountRow, OrderRow, ProductRow, ReconcileDiffRow}
use trade_reconcile_system.Models.Order.{pending_payment}

abbrev shelf : List ProductRow
shelf =
    record {
      id = 7;
      product_no = codes "P7";
      name = codes "phone";
      price = pos 39900;
      stock = 5;
      version = 0;
      status = 1;
    }
    ∷ record {
      id = 8;
      product_no = codes "P8";
      name = codes "case";
      price = pos 900;
      stock = 2;
      version = 0;
      status = 1;
    }
    ∷ []

deduct_products-total_stock_example :
    total_stock (deduct_products 7 (pos 3) shelf) + 3 * count_where (deductible 7 (pos 3)) shelf
    ≡ total_stock shelf
deduct_products-total_stock_example = deduct_products-total_stock 7 3 shelf

abbrev wallet : AccountRow
wallet = record {
  account_no = codes "A1";
  user_id = 1;
  balance = pos 5000;
  frozen_amount = pos 0;
  version = 0;
  status = 0;
}

charge_rows-IsSolvent_example : All IsSolvent (charge_rows (codes "A1") (pos 1990) (wallet ∷ []))
charge_rows-IsSolvent_example =
    charge_rows-IsSolvent (codes "A1") (pos 1990) (wallet ∷ []) (omega arith, tt)

abbrev unpaid : OrderRow
unpaid = record {
  order_no = codes "42";
  request_id = codes "0123456789abcdef";
  user_id = 1;
  product_id = 7;
  quantity = pos 1;
  unit_price = pos 1990;
  total_amount = pos 1990;
  status = pending_payment;
  expire_time = codes "2024-01-01 08:30:00";
  paid_at = none;
}

abbrev open_diff : ReconcileDiffRow
open_diff = record {
  id = 1;
  batch_no = codes "5";
  order_no = codes "42";
  channel_trade_no = codes "T1";
  local_amount = pos 1990;
  channel_amount = pos 1991;
  diff_type = 3;
  diff_amount = negsuc 0;
  handle_status = 0;
  handle_remark = none;
  handled_at = none;
}
