-- ===== src/Controllers/PaidTests.antt =====
-- A POST of a payment callback, and a witness.
use trade_reconcile_system.Models.Result
use trade_reconcile_system.Base.{
  Option, [], count_where, find, if◌then◌else◌, map, none, refl, some, true, update_where, ◌∷◌, ◌≡◌,
}
use trade_reconcile_system.Base.Bytes.{Bytes, codes, str_eq}
use trade_reconcile_system.Base.Calendar.{format_time}
use trade_reconcile_system.Base.Decimal.{digits, to_string}
use trade_reconcile_system.Base.Int.{pos, to_i64, ℤ, ◌*ℤ◌, ◌+ℤ◌, ◌-ℤ◌}
use trade_reconcile_system.Channel.{config_value, epoch_to_beijing, signed_by_channel}
use trade_reconcile_system.Controllers.{HttpRequest, all_hold, submits_task}
use trade_reconcile_system.Controllers.Paid.{PaymentEnds, post_payment_callback-Ends}
use trade_reconcile_system.Controllers.Payments.{
  build_payment_req, handle_payment_callback, has_non_empty_string, int64_text, is_empty,
  payment_fields, payment_tests, post_payment_callback, tested_payment, text_of,
}
use trade_reconcile_system.Controllers.Samples.{
  Sample, request_with, sample_env, sample_members, sample_server, sample_settings, sample_shop,
  sample_start,
}
use trade_reconcile_system.Dao.Account.{
  charge_rows, charged, deduct_balance, find_account, flow_row, insert_flow_row, payer,
}
use trade_reconcile_system.Dao.LocalMessage.{insert_message_row, message_row}
use trade_reconcile_system.Dao.Order.{find_order, pay_rows, payable}
use trade_reconcile_system.Dao.Payment.{insert_payment, payment_row}
use trade_reconcile_system.Db.{AccountRow, OrderRow}
use trade_reconcile_system.Db.Monad.{World, exec, or_throw, pure, read_clock, require}
use trade_reconcile_system.Db.Text.{cast_decimal, sql_eq}
use trade_reconcile_system.Ids.{id_text, layout, next_number}
use trade_reconcile_system.Models.Order.{pending_payment}
use trade_reconcile_system.Models.Payment.{PaymentCallbackReq}
use trade_reconcile_system.Models.Result.{Result, fail, ok}
use trade_reconcile_system.Money.{
  fen_to_yuan_string, finish, negate, scan, scan_step, yuan_string_to_fen, yuan_text,
}
use trade_reconcile_system.PaymentService.{
  build_flow, build_message, build_payment, checked_order, handle_callback, paid_answer,
}
use trade_reconcile_system.RequestId.{request_id_of}
use trade_reconcile_system.Sign.{canonical, to_hex, verify_mock_sign}
use trade_reconcile_system.Stoll.{stoll}

abbrev payment_texts : Bytes → Option Bytes
payment_texts key =
    if str_eq key (codes "orderNo")
    then some (codes "42")
    else if str_eq key (codes "channel")
    then some (codes "MOCK")
    else if str_eq key (codes "channelTradeNo")
    then some (codes "T1")
    else if str_eq key (codes "amount")
    then some (codes "798.00")
    else if str_eq key (codes "sign")
    then some (codes "1f")
    else none

abbrev payment_time : Bytes → Option ℤ
payment_time key = if str_eq key (codes "timestamp") then some (pos 1704067200) else none

abbrev payment_request : HttpRequest Sample
payment_request = request_with (some (sample_members payment_time payment_texts))

abbrev payment_req : PaymentCallbackReq
payment_req = record {
  request_id = codes "0123456789abcdef";
  order_no = codes "42";
  channel = codes "MOCK";
  channel_trade_no = codes "T1";
  amount = codes "798.00";
  timestamp = codes "1704067200";
  sign = codes "1f";
}

submits_payment : handle_payment_callback sample_server payment_request ≡ submits_task payment_req
unfolding handle_payment_callback tested_payment payment_tests all_hold has_non_empty_string
    is_empty payment_fields build_payment_req text_of int64_text to_string digits request_id_of
    str_eq
submits_payment = refl

abbrev due_order : OrderRow
due_order = record {
  order_no = codes "42";
  request_id = codes "0123456789abcdef";
  user_id = 1;
  product_id = 7;
  quantity = pos 2;
  unit_price = pos 39900;
  total_amount = pos 79800;
  status = pending_payment;
  expire_time = codes "2024-01-01 08:30:00";
  paid_at = none;
}

abbrev wallet : AccountRow
wallet = record {
  account_no = codes "A1";
  user_id = 1;
  balance = pos 100000;
  frozen_amount = pos 0;
  version = 0;
  status = 0;
}

-- The order of the callback, and a payer who can pay.
abbrev payable_world : World
payable_world = record sample_start {
  committed = record sample_shop { orders = due_order ∷ []; accounts = wallet ∷ [] };
}

-- The task of the submitted request_with takes 798.00 from the payer's 1000.00.
confirms :
    map {B = ℤ}
      (λ r. r.balance)
      (handle_callback sample_env sample_settings payment_req
        (codes "{...}")
        payable_world).1.committed.accounts
    ≡ pos 20200 ∷ []
unfolding pure or_throw require handle_callback signed_by_channel verify_mock_sign config_value
    str_eq to_hex canonical find_order find yuan_string_to_fen layout next_number to_string digits
    format_time ◌+ℤ◌ ◌*ℤ◌ ◌-ℤ◌ to_i64 cast_decimal fen_to_yuan_string yuan_text negate Result.ok
    Result.fail exec read_clock id_text pay_rows payable update_where count_where sql_eq stoll
    epoch_to_beijing insert_payment payment_row deduct_balance charge_rows payer charged
    find_account flow_row build_flow insert_flow_row message_row build_message insert_message_row
    paid_answer checked_order build_payment scan scan_step finish
confirms = refl

post_payment_callback-Ends_example :
    PaymentEnds sample_server sample_env sample_settings payment_request payable_world (
      post_payment_callback sample_server sample_env sample_settings true payment_request
        payable_world)
post_payment_callback-Ends_example =
    post_payment_callback-Ends sample_server sample_env sample_settings payment_request
      payable_world true
