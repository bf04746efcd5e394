-- ===== src/Dao/Order.antt =====
-- src/dao/OrderDao.cc
pub mod Once
use mathlib.Core.Option
use trade_reconcile_system.Base.{
  Bool, List, Option, [], count_where, false, find, if◌then◌else◌, map, none, some, true,
  update_where, ℕ, ◌&&◌, ◌++◌, ◌^◌, ◌||◌, ◌∷◌,
}
use trade_reconcile_system.Base.Bytes.{Bytes}
use trade_reconcile_system.Base.Calendar.{format_time}
use trade_reconcile_system.Base.Int.{leb_ℤ, ltb_ℤ, pos}
use trade_reconcile_system.Dao.{fits_decimal, fits_id, fits_width}
use trade_reconcile_system.Db.{Db, OrderRow}
use trade_reconcile_system.Db.Monad.{Env, M, Statement, exec, query}
use trade_reconcile_system.Db.Text.{cast_decimal, sql_eq}
use trade_reconcile_system.Models.Order.{Order, OrderStatus, paid, pending_payment}
use trade_reconcile_system.Money.{fen_to_yuan_string}

unfoldable pub order_row : Order → OrderRow
order_row o = record {
  order_no = o.order_no;
  request_id = o.request_id;
  user_id = o.user_id;
  product_id = o.product_id;
  quantity = o.quantity;
  unit_price = cast_decimal (fen_to_yuan_string o.unit_price_fen);
  total_amount = cast_decimal (fen_to_yuan_string o.total_amount_fen);
  status = o.status;
  expire_time = o.expire_time;
  paid_at = none;
}

-- The columns' ranges and the table's CHECK constraints.
unfoldable pub fits_order : OrderRow → Bool
fits_order r =
    fits_width 32 r.order_no
    && fits_width 64 r.request_id
    && fits_id r.user_id
    && fits_id r.product_id
    && ltb_ℤ (pos 0) r.quantity
    && ltb_ℤ r.quantity (pos (2 ^ 32))
    && fits_decimal r.unit_price
    && fits_decimal r.total_amount
    && leb_ℤ (pos 0) r.total_amount

-- uk_order_no and uk_request_id
unfoldable pub clashes : OrderRow → OrderRow → Bool
clashes r s = sql_eq s.order_no r.order_no || sql_eq s.request_id r.request_id

unfoldable pub insert_row : OrderRow → Statement (Unit {0})
unfolding fits_order clashes
insert_row r db =
    if fits_order r
    then elim (find (clashes r) db.orders) [
      | none ↦ some (tt, record db { orders = db.orders ++ r ∷ [] })
      | some _ ↦ none
    ]
    else none

unfoldable pub insert_order : Order → M (Unit {0})
unfolding insert_row order_row
insert_order o = exec (insert_row (order_row o))

abbrev pub has_order_no : Bytes → OrderRow → Bool
has_order_no order_no r = sql_eq r.order_no order_no

unfoldable pub order_of_row : OrderRow → Order
order_of_row r = record {
  order_no = r.order_no;
  request_id = r.request_id;
  user_id = r.user_id;
  product_id = r.product_id;
  quantity = r.quantity;
  unit_price_fen = r.unit_price;
  total_amount_fen = r.total_amount;
  status = r.status;
  expire_time = r.expire_time;
  paid_at = elim r.paid_at [ none ↦ [] | some t ↦ t ];
}

unfoldable pub find_order : Bytes → Db → Option Order
unfolding order_of_row
find_order order_no db = Option.map order_of_row (find (has_order_no order_no) db.orders)

unfoldable pub get_by_order_no : Bytes → M (Option Order)
get_by_order_no order_no = exec (query (find_order order_no))

abbrev pub is_pending : OrderStatus → Bool
is_pending s = elim s [ pending_payment ↦ true | _ ↦ false ]

-- The UPDATE of `markPaid`, at the database's time.
unfoldable pub payable : Bytes → OrderRow → Bool
payable order_no r = has_order_no order_no r && is_pending r.status

unfoldable pub pay_rows : Bytes → Bytes → List OrderRow → List OrderRow
unfolding payable
pay_rows order_no now =
    update_where (payable order_no) (λ r. record r { status = paid; paid_at = some now })

unfoldable pub mark_paid : Env → Bytes → M ℕ
unfolding payable pay_rows
mark_paid env order_no = exec λ db. some (
  count_where (payable order_no) db.orders,
  record db { orders = pay_rows order_no (format_time (pos env.db_now)) db.orders },
)
