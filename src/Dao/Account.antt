-- ===== src/Dao/Account.antt =====
-- src/dao/AccountDao.cc
pub mod Balance
use mathlib.Core.Option
use trade_reconcile_system.Base.{
  Bool, List, Option, [], count_where, find, if◌then◌else◌, map, none, not, some, update_where, ℕ,
  ◌&&◌, ◌++◌, ◌+◌, ◌==◌, ◌∷◌,
}
use trade_reconcile_system.Base.Bytes.{Bytes}
use trade_reconcile_system.Base.Int.{leb_ℤ, ltb_ℤ, pos, ℤ, ◌-ℤ◌}
use trade_reconcile_system.Dao.{fits_decimal, fits_width}
use trade_reconcile_system.Db.{AccountFlowRow, AccountRow, Db}
use trade_reconcile_system.Db.Monad.{M, Statement, exec, query}
use trade_reconcile_system.Db.Text.{cast_decimal, sql_eq}
use trade_reconcile_system.Models.Account.{Account, AccountFlow, biz_type_code, direction_code}
use trade_reconcile_system.Money.{fen_to_yuan_string}

unfoldable pub account_of_row : AccountRow → Account
account_of_row r = record {
  account_no = r.account_no;
  user_id = r.user_id;
  balance_fen = r.balance;
  frozen_amount_fen = r.frozen_amount;
  status = r.status;
}

unfoldable pub find_account : ℕ → Db → Option Account
unfolding account_of_row
find_account user_id db = Option.map account_of_row (find (λ r. r.user_id == user_id) db.accounts)

unfoldable pub get_by_user_id : ℕ → M (Option Account)
get_by_user_id user_id = exec (query (find_account user_id))

-- The WHERE clause of `deduct`, and its SET clause.
unfoldable pub payer : Bytes → ℤ → AccountRow → Bool
payer account_no amount r =
    sql_eq r.account_no account_no && r.status == 0 && leb_ℤ amount r.balance

unfoldable pub charged : ℤ → AccountRow → AccountRow
charged amount r = record r { balance = r.balance -ℤ amount; version = r.version + 1 }

unfoldable pub charge_rows : Bytes → ℤ → List AccountRow → List AccountRow
unfolding payer charged
charge_rows account_no amount = update_where (payer account_no amount) (charged amount)

-- A negative amount may take a balance out of the column's range, which refuses the statement.
unfoldable pub deduct_balance : Bytes → ℤ → Statement ℕ
unfolding payer charge_rows
deduct_balance account_no amount db =
    let rows = charge_rows account_no amount db.accounts in
    if count_where (λ r. not (fits_decimal r.balance)) rows == 0
    then some (count_where (payer account_no amount) db.accounts, record db { accounts = rows })
    else none

unfoldable pub deduct : Bytes → ℤ → M ℕ
unfolding deduct_balance
deduct account_no amount_fen =
    exec (deduct_balance account_no (cast_decimal (fen_to_yuan_string amount_fen)))

unfoldable pub flow_row : AccountFlow → AccountFlowRow
flow_row f = record {
  account_no = f.account_no;
  biz_type = biz_type_code f.biz_type;
  direction = direction_code f.direction;
  amount = cast_decimal (fen_to_yuan_string f.amount_fen);
  before_balance = cast_decimal (fen_to_yuan_string f.before_fen);
  after_balance = cast_decimal (fen_to_yuan_string f.after_fen);
  order_no = f.order_no;
  request_id = f.request_id;
}

-- The columns' ranges and the CHECK constraint of the table.
unfoldable pub fits_flow : AccountFlowRow → Bool
fits_flow r =
    fits_width 32 r.account_no
    && fits_decimal r.amount
    && fits_decimal r.before_balance
    && fits_decimal r.after_balance
    && fits_width 32 r.order_no
    && fits_width 64 r.request_id
    && ltb_ℤ (pos 0) r.amount

-- uk_request_biz
unfoldable pub same_request_biz : AccountFlowRow → AccountFlowRow → Bool
same_request_biz r s = sql_eq s.request_id r.request_id && s.biz_type == r.biz_type

unfoldable pub insert_flow_row : AccountFlowRow → Statement (Unit {0})
unfolding fits_flow same_request_biz
insert_flow_row r db =
    if fits_flow r
    then elim (find (same_request_biz r) db.flows) [
      | none ↦ some (tt, record db { flows = db.flows ++ r ∷ [] })
      | some _ ↦ none
    ]
    else none

unfoldable pub insert_flow : AccountFlow → M (Unit {0})
unfolding insert_flow_row flow_row
insert_flow f = exec (insert_flow_row (flow_row f))
