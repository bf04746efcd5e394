-- ===== src/PaymentService/Atomic.antt =====
-- What `handleCallback` may do to the committed database, and what its steps leave alone.
use trade_reconcile_system.Models.Result
use trade_reconcile_system.Base.{
  Option, String, [], ap, count_where, find, none, some, ◌++◌, ◌<◌, ◌∷◌, ◌≡◌, ◌≢◌, ◌⊎◌,
}
use trade_reconcile_system.Base.Bytes.{Bytes}
use trade_reconcile_system.Base.Calendar.{format_time}
use trade_reconcile_system.Base.Int.{pos, ℤ}
use trade_reconcile_system.Channel.{Settings}
use trade_reconcile_system.Dao.Account.{
  charge_rows, deduct, find_account, flow_row, get_by_user_id, insert_flow, payer,
}
use trade_reconcile_system.Dao.LocalMessage.{insert_message, message_row}
use trade_reconcile_system.Dao.Order.{find_order, get_by_order_no, mark_paid, pay_rows, payable}
use trade_reconcile_system.Dao.Payment.{
  get_by_channel_trade_no, insert_with_dedup, payment_clashes, payment_row,
}
use trade_reconcile_system.Db.{Db}
use trade_reconcile_system.Db.Monad.{Env, Exception, Outcome, World, done, hang, thrown}
use trade_reconcile_system.Db.Monad.Laws.{
  >>-Keeps, >>=-Keeps, Keeps, exec-Keeps, next_id-Keeps, or_throw-Keeps, pure-Keeps,
  read_clock-Keeps, require-Keeps, throw-Keeps,
}
use trade_reconcile_system.Models.Account.{Account}
use trade_reconcile_system.Models.ErrCode.{ErrCode}
use trade_reconcile_system.Models.Json.{Json}
use trade_reconcile_system.Models.Order.{Order}
use trade_reconcile_system.Models.Payment.{Payment, PaymentCallbackReq}
use trade_reconcile_system.Models.Result.{Result, fail, ok}
use trade_reconcile_system.Money.{yuan_string_to_fen}
use trade_reconcile_system.PaymentService.{
  build_flow, build_message, build_payment, charge, checked_order, failed, not_payable, nothing,
  outbox, paid_answer, replayed,
}
use trade_reconcile_system.PaymentService.Steps.{PaymentOf}

-- The specification of an accepted callback, on the database: the payment is recorded, the order is
-- paid, the account is charged with its flow, and the message waits in the outbox.
unfoldable pub paid_db :
    Env → Settings → PaymentCallbackReq → Order → Payment → Account → Account → Bytes → Db → Db
paid_db env settings req order p account after message_id db = record db {
  payments = db.payments ++ payment_row p ∷ [];
  orders = pay_rows req.order_no (format_time (pos env.db_now)) db.orders;
  accounts = charge_rows account.account_no p.amount_fen db.accounts;
  flows = db.flows ++ flow_row (build_flow req account after p.amount_fen) ∷ [];
  messages =
      db.messages ++ message_row env.db_now (build_message env settings req order message_id) ∷ [];
}

-- What the checks of steps 2 to 4 have established.
pub record Accepted (req : PaymentCallbackReq) (raw_body : Bytes) (db : Db) (order : Order)
    (p : Payment) : Type 0 where
  pub order_found : find_order req.order_no db ≡ some order
  pub amount_parsed : yuan_string_to_fen req.amount ≡ some p.amount_fen
  pub amount_equal : p.amount_fen ≡ order.total_amount_fen
  pub payment_of : PaymentOf req p.amount_fen raw_body p
  pub first_trade : find (payment_clashes (payment_row p)) db.payments ≡ none
  pub order_pending : 0 < count_where (payable req.order_no) db.orders

-- The call does not confirm a payment, and the committed database is what it was.
pub record Unchanged (req : PaymentCallbackReq) (db : Db) (r : Outcome (Result Json) × World)
    : Type 0 where
  pub kept : r.1.committed ≡ db
  pub untold : r.0 ≢ done (paid_answer req)

-- The call confirms the payment, and the committed database is the specified one.
pub record Paid (env : Env) (settings : Settings) (req : PaymentCallbackReq) (raw_body : Bytes)
    (db : Db) (r : Outcome (Result Json) × World) : Type 0 where
  pub order : Order
  pub payment : Payment
  pub accepted : Accepted req raw_body db order payment
  pub account : Account
  pub account_found : find_account order.user_id db ≡ some account
  pub enough : 0 < count_where (payer account.account_no payment.amount_fen) db.accounts
  pub after : Account
  pub read_back :
      find_account order.user_id
        (record db { accounts = charge_rows account.account_no payment.amount_fen db.accounts })
      ≡ some after
  pub message_id : Bytes
  pub told : r.0 ≡ done (paid_answer req)
  pub stored : r.1.committed ≡ paid_db env settings req order payment account after message_id db

abbrev pub Ends :
    Env → Settings → PaymentCallbackReq → Bytes → Db → Outcome (Result Json) × World → Type 0
Ends env settings req raw_body db r = Unchanged req db r ⊎ Paid env settings req raw_body db r

ruleset keeping = (
  >>=-Keeps, >>-Keeps, pure-Keeps, throw-Keeps, require-Keeps, or_throw-Keeps, exec-Keeps,
  read_clock-Keeps, next_id-Keeps,
)

pub checked_order-Keeps : (req : PaymentCallbackReq) → Keeps (checked_order req)
unfolding checked_order get_by_order_no
checked_order-Keeps req = search keeping depth 14

pub build_payment-Keeps :
    (env : Env) (req : PaymentCallbackReq) (amount_fen : ℤ) (raw_body : Bytes)
    → Keeps (build_payment env req amount_fen raw_body)
unfolding build_payment
build_payment-Keeps env req amount_fen raw_body = search keeping depth 8

pub insert_with_dedup-Keeps : (p : Payment) → Keeps (insert_with_dedup p)
unfolding insert_with_dedup
insert_with_dedup-Keeps p = search keeping depth 8

pub mark_paid-Keeps : (env : Env) (order_no : Bytes) → Keeps (mark_paid env order_no)
unfolding mark_paid
mark_paid-Keeps env order_no = search keeping

pub replayed-Keeps : (req : PaymentCallbackReq) → Keeps (replayed req)
unfolding replayed get_by_channel_trade_no
replayed-Keeps req = search keeping depth 10

pub not_payable-Keeps : (req : PaymentCallbackReq) → Keeps (not_payable req)
unfolding not_payable get_by_order_no
not_payable-Keeps req = search keeping depth 10

pub charge-Keeps :
    (req : PaymentCallbackReq) (order : Order) (amount_fen : ℤ)
    → Keeps (charge req order amount_fen)
unfolding charge get_by_user_id deduct insert_flow
charge-Keeps req order amount_fen = search keeping depth 14

pub outbox-Keeps :
    (env : Env) (settings : Settings) (req : PaymentCallbackReq) (order : Order)
    → Keeps (outbox env settings req order)
unfolding outbox insert_message
outbox-Keeps env settings req order = search keeping depth 8

pub thrown-Unchanged :
    (req : PaymentCallbackReq) (db : Db) (e : Exception) (u : World)
    → u.committed ≡ db
    → Unchanged req db (thrown e, u)
thrown-Unchanged req db e u h = record { kept = h; untold = λ k. cc k }

pub hang-Unchanged :
    (req : PaymentCallbackReq) (db : Db) (u : World) → u.committed ≡ db → Unchanged req db (hang, u)
hang-Unchanged req db u h = record { kept = h; untold = λ k. cc k }

abbrev payload_of : Outcome (Result Json) → Option Json
payload_of (done r) = r.payload
payload_of _ = none

pub failed-untold :
    (code : ErrCode) (message : String) (req : PaymentCallbackReq)
    → done (failed code message req) ≢ done (paid_answer req)
unfolding paid_answer Result.ok Result.fail
failed-untold code message req k = cc (ap payload_of k)

pub nothing-untold : (req : PaymentCallbackReq) → done (nothing req) ≢ done (paid_answer req)
unfolding paid_answer Result.ok
nothing-untold req k = cc (ap payload_of k)

pub failed-Unchanged :
    (code : ErrCode) (message : String) (req : PaymentCallbackReq) (db : Db) (u : World)
    → u.committed ≡ db
    → Unchanged req db (done (failed code message req), u)
failed-Unchanged code message req db u h = record {
  kept = h;
  untold = failed-untold code message req;
}
