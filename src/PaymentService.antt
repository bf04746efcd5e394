-- ===== src/PaymentService.antt =====
-- src/services/PaymentService.cc: `handleCallback`. The secret, the exchange and the routing key are
-- those of the configuration; the HMAC is OpenSSL's.
use mathlib.Core.Option
use trade_reconcile_system.Models.Result
pub mod Steps
pub mod Settle
pub mod Atomic
pub mod Commits
pub mod Body
pub mod Refines
pub mod Unsigned
pub mod Accounting
pub mod Stages
pub mod Succeeds
pub mod Replay
mod Tests
use trade_reconcile_system.Base.{
  Bool, Option, String, [], false, if◌then◌else◌, none, not, some, true, ℕ, ◌==◌,
}
use trade_reconcile_system.Base.Bytes.{Bytes, codes, str_eq}
use trade_reconcile_system.Base.Int.{eq_ℤ, pos, to_i64, ℤ, ◌+ℤ◌}
use trade_reconcile_system.Channel.{
  Settings, biz_type_order_paid, config_value, epoch_to_beijing, signed_by_channel,
  supported_channel,
}
use trade_reconcile_system.Dao.Account.{deduct, get_by_user_id, insert_flow}
use trade_reconcile_system.Dao.LocalMessage.{insert_message}
use trade_reconcile_system.Dao.Order.{get_by_order_no, mark_paid}
use trade_reconcile_system.Dao.Payment.{
  PaymentInsertOutcome, duplicate, get_by_channel_trade_no, insert_with_dedup, inserted,
}
use trade_reconcile_system.Db.Monad.{
  Env, Exception, M, Outcome, World, biz, commit, db_exception, done, hang, next_id, or_throw, pure,
  require, std_exception, thrown, transaction, ◌>>=◌, ◌>>◌,
}
use trade_reconcile_system.Models.Account.{Account, AccountFlow, out_flow, payment}
use trade_reconcile_system.Models.ErrCode.{
  ErrCode, account_not_found, amount_mismatched, balance_not_enough, channel_trade_conflict,
  db_error, internal_error, order_not_found, order_status_invalid, sign_verify_failed, to_message,
  unsupported_channel,
}
use trade_reconcile_system.Models.Json.{Json, end, member, null, number, object, text}
use trade_reconcile_system.Models.Order.{Order, paid}
use trade_reconcile_system.Models.Payment.{
  LocalMessage, Payment, PaymentCallbackReq, pending, success_pay,
}
use trade_reconcile_system.Models.Result.{Result, fail, ok}
use trade_reconcile_system.Money.{fen_to_yuan_string, yuan_string_to_fen}

-- Step 2: the order, and the amount that the callback names, which is the order's.
unfoldable pub checked_order : PaymentCallbackReq → M (Order × ℤ)
unfolding get_by_order_no
checked_order req = do
  found ← get_by_order_no req.order_no
  order ← or_throw found (biz order_not_found "订单不存在")
  amount_fen ← or_throw (yuan_string_to_fen req.amount) mismatch
  require (eq_ℤ amount_fen order.total_amount_fen) mismatch
  pure (order, amount_fen)
  where
    mismatch : Exception
    mismatch = biz amount_mismatched "支付金额与订单金额不一致"

-- Step 3: the payment row.
unfoldable pub build_payment : Env → PaymentCallbackReq → ℤ → Bytes → M Payment
unfolding epoch_to_beijing next_id
build_payment env req amount_fen raw_body = do
  payment_no ← next_id env
  callback_time ← or_throw (epoch_to_beijing req.timestamp) std_exception
  pure (record {
    payment_no = payment_no;
    order_no = req.order_no;
    channel = req.channel;
    channel_trade_no = req.channel_trade_no;
    amount_fen = amount_fen;
    status = success_pay;
    callback_time = callback_time;
    raw_body = raw_body;
  })

abbrev pub nothing : PaymentCallbackReq → Result Json
nothing req = Result.ok null req.request_id

bound_to : Bytes → Option Payment → Bool
bound_to order_no none = false
bound_to order_no (some p) = str_eq p.order_no order_no

-- A repeated callback: success for the same order, without a commit.
unfoldable pub replayed : PaymentCallbackReq → M (Result Json)
unfolding get_by_channel_trade_no bound_to
replayed req = do
  existing ← get_by_channel_trade_no req.channel req.channel_trade_no
  require (bound_to req.order_no existing) (biz channel_trade_conflict "渠道交易号已绑定其他订单")
  pure (nothing req)

is_paid : Option Order → Bool
is_paid none = false
is_paid (some order) = elim order.status [ paid ↦ true | _ ↦ false ]

-- Step 4, when no row was pending.
unfoldable pub not_payable : PaymentCallbackReq → M (Result Json)
unfolding get_by_order_no is_paid
not_payable req = do
  current ← get_by_order_no req.order_no
  require (is_paid current) (biz order_status_invalid "订单状态不允许支付")
  pure (nothing req)

-- Step 5: the account is charged, and the flow written from the balance read back. `after` is
-- dereferenced without a test; a missing account, which the charge rules out, is an exception here.
unfoldable pub build_flow : PaymentCallbackReq → Account → Account → ℤ → AccountFlow
build_flow req account after amount_fen = record {
  account_no = account.account_no;
  biz_type = payment;
  direction = out_flow;
  amount_fen = amount_fen;
  before_fen = to_i64 (after.balance_fen +ℤ amount_fen);
  after_fen = after.balance_fen;
  order_no = req.order_no;
  request_id = req.request_id;
}

unfoldable pub charge : PaymentCallbackReq → Order → ℤ → M (Unit {0})
unfolding get_by_user_id deduct insert_flow build_flow
charge req order amount_fen = do
  found ← get_by_user_id order.user_id
  account ← or_throw found (biz account_not_found "账户不存在")
  affected ← deduct account.account_no amount_fen
  require (not (affected == 0)) (biz balance_not_enough "余额不足")
  read_back ← get_by_user_id order.user_id
  after ← or_throw read_back std_exception
  insert_flow (build_flow req account after amount_fen)

-- Step 6: the message, in the same transaction.
unfoldable pub payload_json : Order → Bytes → Json
payload_json order message_id = object (
    member "messageId" (text message_id) (
      member "bizType" (text biz_type_order_paid) (
        member "orderNo" (text order.order_no) (
          member "amount" (text (fen_to_yuan_string order.total_amount_fen)) (
            member "userId" (number (pos order.user_id)) (member "status" (number (pos 1)) end))))))

unfoldable pub build_message : Env → Settings → PaymentCallbackReq → Order → Bytes → LocalMessage
unfolding config_value payload_json
build_message env settings req order message_id = record {
  message_id = message_id;
  biz_type = biz_type_order_paid;
  biz_id = req.order_no;
  exchange = config_value settings.exchange (codes "trade.exchange");
  routing_key = config_value settings.routing_key_notify (codes "order.paid");
  payload = env.write_styled (payload_json order message_id);
  status = pending;
  retry_count = 0;
  next_retry_time = [];
}

unfoldable pub outbox : Env → Settings → PaymentCallbackReq → Order → M (Unit {0})
unfolding build_message insert_message next_id
outbox env settings req order = do
  message_id ← next_id env
  insert_message env (build_message env settings req order message_id)

unfoldable pub paid_answer : PaymentCallbackReq → Result Json
paid_answer req =
    Result.ok (object (member "orderNo" (text req.order_no) (member "status" (number (pos 1)) end)))
      req.request_id

-- Steps 5 to 7.
unfoldable pub settle : Env → Settings → PaymentCallbackReq → Order → ℤ → M (Result Json)
unfolding charge outbox commit paid_answer
settle env settings req order amount_fen = do
  charge req order amount_fen
  outbox env settings req order
  commit
  pure (paid_answer req)

unfoldable pub after_mark : Env → Settings → PaymentCallbackReq → Order → ℤ → ℕ → M (Result Json)
unfolding settle not_payable
after_mark env settings req order amount_fen affected =
    if affected == 0 then not_payable req else settle env settings req order amount_fen

unfoldable pub after_insert :
    Env → Settings → PaymentCallbackReq → Order → ℤ → PaymentInsertOutcome → M (Result Json)
unfolding replayed mark_paid after_mark
after_insert env settings req order amount_fen duplicate = replayed req
after_insert env settings req order amount_fen inserted = do
  affected ← mark_paid env req.order_no
  after_mark env settings req order amount_fen affected

-- Steps 2 to 7.
unfoldable pub body : Env → Settings → PaymentCallbackReq → Bytes → M (Result Json)
unfolding checked_order build_payment insert_with_dedup after_insert
body env settings req raw_body = do
  (order, amount_fen) ← checked_order req
  p ← build_payment env req amount_fen raw_body
  dedup ← insert_with_dedup p
  after_insert env settings req order amount_fen dedup

abbrev pub failed : ErrCode → String → PaymentCallbackReq → Result Json
failed code message req = Result.fail code message req.request_id

unfoldable pub answer_of : PaymentCallbackReq → Exception → Result Json
answer_of req (biz code message) = failed code message req
answer_of req db_exception = failed db_error (to_message db_error) req
answer_of req std_exception = failed internal_error (to_message internal_error) req

unfoldable pub caught :
    PaymentCallbackReq → Outcome (Result Json) × World → Outcome (Result Json) × World
unfolding answer_of
caught req (done o, w) = (done o, w)
caught req (thrown e, w) = (done (answer_of req e), w)
caught req (hang, w) = (hang, w)

unfoldable pub callback_transaction : Env → Settings → PaymentCallbackReq → Bytes → M (Result Json)
unfolding caught transaction body
callback_transaction env settings req raw_body w =
    caught req (transaction (body env settings req raw_body) w)

unfoldable pub handle_callback : Env → Settings → PaymentCallbackReq → Bytes → M (Result Json)
unfolding callback_transaction signed_by_channel
handle_callback env settings req raw_body w =
    if not (str_eq req.channel supported_channel)
    then (done (failed unsupported_channel "不支持的支付渠道" req), w)
    else if not (signed_by_channel settings req)
    then (done (failed sign_verify_failed "签名校验失败" req), w)
    else callback_transaction env settings req raw_body w
