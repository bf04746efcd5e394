-- ===== src/Dao/Payment.antt =====
-- src/dao/PaymentDao.cc
use mathlib.Core.Option
use trade_reconcile_system.Base.{
  Bool, Option, [], find, if◌then◌else◌, length, none, some, ℕ, ◌&&◌, ◌++◌, ◌==◌, ◌||◌, ◌∷◌,
}
use trade_reconcile_system.Base.Bytes.{Bytes}
use trade_reconcile_system.Dao.{fits_decimal, fits_width}
use trade_reconcile_system.Db.{Db, PaymentRow}
use trade_reconcile_system.Db.Monad.{M, Statement, exec, pure, query, ◌>>=◌}
use trade_reconcile_system.Db.Text.{cast_decimal, sql_eq}
use trade_reconcile_system.Models.Payment.{
  Payment, PaymentStatus, failed_pay, pending_pay, success_pay,
}
use trade_reconcile_system.Money.{fen_to_yuan_string}

pub data PaymentInsertOutcome : Type 0 where
  inserted duplicate : PaymentInsertOutcome

-- The row that the INSERT writes: status 1.
unfoldable pub payment_row : Payment → PaymentRow
payment_row p = record {
  payment_no = p.payment_no;
  order_no = p.order_no;
  channel = p.channel;
  channel_trade_no = p.channel_trade_no;
  amount = cast_decimal (fen_to_yuan_string p.amount_fen);
  status = 1;
  callback_time = p.callback_time;
  raw_body = p.raw_body;
}

-- The columns' ranges; a DATETIME takes years of four digits.
unfoldable pub fits_payment : PaymentRow → Bool
fits_payment r =
    fits_width 32 r.payment_no
    && fits_width 32 r.order_no
    && fits_width 16 r.channel
    && fits_width 64 r.channel_trade_no
    && fits_decimal r.amount
    && length r.callback_time == 19
    && fits_width 65535 r.raw_body

unfoldable pub same_trade : Bytes → Bytes → PaymentRow → Bool
same_trade channel channel_trade_no s =
    sql_eq s.channel channel && sql_eq s.channel_trade_no channel_trade_no

-- uk_payment_no and uk_channel_trade
unfoldable pub payment_clashes : PaymentRow → PaymentRow → Bool
unfolding same_trade
payment_clashes r s = sql_eq s.payment_no r.payment_no || same_trade r.channel r.channel_trade_no s

-- INSERT … ON DUPLICATE KEY UPDATE payment_no = payment_no: one affected row, or none.
unfoldable pub insert_payment : PaymentRow → Statement ℕ
unfolding fits_payment payment_clashes
insert_payment r db =
    if fits_payment r
    then elim (find (payment_clashes r) db.payments) [
      | none ↦ some (1, record db { payments = db.payments ++ r ∷ [] })
      | some _ ↦ some (0, db)
    ]
    else none

unfoldable pub insert_with_dedup : Payment → M PaymentInsertOutcome
unfolding insert_payment payment_row
insert_with_dedup p = do
  affected ← exec (insert_payment (payment_row p))
  pure (if affected == 1 then inserted else duplicate)

payment_status : ℕ → PaymentStatus
payment_status n = if n == 0 then pending_pay else if n == 1 then success_pay else failed_pay

-- The SELECT leaves `callbackTime` and `rawBody` empty.
unfoldable pub payment_of_row : PaymentRow → Payment
unfolding payment_status
payment_of_row r = record {
  payment_no = r.payment_no;
  order_no = r.order_no;
  channel = r.channel;
  channel_trade_no = r.channel_trade_no;
  amount_fen = r.amount;
  status = payment_status r.status;
  callback_time = [];
  raw_body = [];
}

unfoldable pub find_payment : Bytes → Bytes → Db → Option Payment
unfolding same_trade payment_of_row
find_payment channel channel_trade_no db =
    Option.map payment_of_row (find (same_trade channel channel_trade_no) db.payments)

unfoldable pub get_by_channel_trade_no : Bytes → Bytes → M (Option Payment)
get_by_channel_trade_no channel channel_trade_no =
    exec (query (find_payment channel channel_trade_no))
