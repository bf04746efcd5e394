-- ===== src/PaymentService/Tests.antt =====
-- Runs of `handleCallback`, and witnesses.
use trade_reconcile_system.Models.Result
use mathlib.Core.Path.{subst}
use trade_reconcile_system.Base.{
  List, Option, [], ap, arith, count_where, false, find, inl, inr, map, none, refl, some, some_inj,
  sym, true, update_where, ℕ, ◌+◌, ◌∙◌, ◌∷◌, ◌≡◌, ◌≢◌,
}
use trade_reconcile_system.Base.Bytes.{Bytes, codes, str_eq}
use trade_reconcile_system.Base.Calendar.{format_time}
use trade_reconcile_system.Base.Decimal.{digits, to_string}
use trade_reconcile_system.Base.Int.{IsI64, pos, pos_part, to_i64, ℤ, ◌*ℤ◌, ◌+ℤ◌, ◌-ℤ◌}
use trade_reconcile_system.Channel.{Settings, config_value, epoch_to_beijing, signed_by_channel}
use trade_reconcile_system.Dao.Account.{
  account_of_row, charge_rows, charged, deduct_balance, find_account, fits_flow, flow_row,
  insert_flow_row, payer,
}
use trade_reconcile_system.Dao.LocalMessage.{fits_message, insert_message_row, message_row}
use trade_reconcile_system.Dao.Order.{find_order, pay_rows, payable}
use trade_reconcile_system.Dao.Payment.{fits_payment, insert_payment, payment_row}
use trade_reconcile_system.Db.{AccountRow, Db, OrderRow}
use trade_reconcile_system.Db.Monad.{
  Env, Outcome, World, done, exec, or_throw, pure, read_clock, require,
}
use trade_reconcile_system.Db.Text.{cast_decimal, sql_eq}
use trade_reconcile_system.Ids.{Generator, fresh_generator, id_text, layout, next_number}
use trade_reconcile_system.Models.Account.{Account, biz_type_code, direction_code}
use trade_reconcile_system.Models.Json.{Json}
use trade_reconcile_system.Models.Order.{Order, pending_payment}
use trade_reconcile_system.Models.Payment.{PaymentCallbackReq}
use trade_reconcile_system.Models.Result.{Result, fail, ok}
use trade_reconcile_system.Money.{
  fen_to_yuan_string, finish, negate, scan, scan_step, yuan_string_to_fen, yuan_text,
}
use trade_reconcile_system.PaymentService.{
  build_flow, build_message, build_payment, checked_order, handle_callback, nothing, paid_answer,
}
use trade_reconcile_system.PaymentService.Accounting.{handle_callback-accounts}
use trade_reconcile_system.PaymentService.Atomic.{Ends, Paid}
use trade_reconcile_system.PaymentService.Refines.{handle_callback-Ends}
use trade_reconcile_system.PaymentService.Replay.{handle_callback-again}
use trade_reconcile_system.PaymentService.Succeeds.{handle_callback-succeeds, payment_at}
use trade_reconcile_system.PaymentService.Unsigned.{
  IsSigned, handle_callback-unsigned, refused_by_guards,
}
use trade_reconcile_system.Sign.{canonical, to_hex, verify_mock_sign}
use trade_reconcile_system.Stoll.{stoll}

abbrev env : Env
env = record {
  clock = λ n. 1704067200000 + n;
  rounds = 5;
  db_now = 1704067200;
  write_compact = λ j. codes "{}";
  write_styled = λ j. codes "{ }";
}

-- A digest of one byte stands for OpenSSL's.
abbrev settings : Settings
settings = record {
  hmac = λ key data_. 31 ∷ [];
  secret = some (codes "s");
  exchange = none;
  routing_key_notify = none;
}

abbrev order : OrderRow
order = record {
  order_no = codes "42";
  request_id = codes "0123456789abcdef";
  user_id = 1;
  product_id = 7;
  quantity = pos 1;
  unit_price = pos 1990;
  total_amount = pos 1990;
  status = pending_payment;
  expire_time = codes "2024-01-01 08:30:00";
  paid_at = none;
}

abbrev wallet : AccountRow
wallet = record {
  account_no = codes "A1";
  user_id = 1;
  balance = pos 5000;
  frozen_amount = pos 0;
  version = 0;
  status = 0;
}

abbrev shop : Db
shop = record {
  products = [];
  orders = order ∷ [];
  idempotents = [];
  accounts = wallet ∷ [];
  flows = [];
  payments = [];
  messages = [];
  notifies = [];
  batches = [];
  diffs = [];
}

abbrev start : World
start = record {
  committed = shop;
  working = shop;
  finished = false;
  generator = fresh_generator;
  faults = [];
}

abbrev req : Bytes → Bytes → PaymentCallbackReq
req amount sign = record {
  request_id = codes "callback-request";
  order_no = codes "42";
  channel = codes "MOCK";
  channel_trade_no = codes "T1";
  amount = amount;
  timestamp = codes "1704067200";
  sign = sign;
}

abbrev result_code : Outcome (Result Json) → ℕ
result_code (done r) = r.code
result_code _ = 1

pays :
    let (o, w) = handle_callback env settings (req (codes "19.90") (codes "1f")) [] start in
    (result_code o ≡ 0)
    × (map {B = ℤ} (λ r. r.balance) w.committed.accounts ≡ pos 3010 ∷ [])
    × (map {B = Bytes} (λ r. r.callback_time) w.committed.payments
        ≡ codes "2024-01-01 08:00:00" ∷ [])
unfolding pure or_throw require handle_callback signed_by_channel verify_mock_sign config_value
    str_eq to_hex canonical find_order find yuan_string_to_fen layout next_number to_string digits
    format_time ◌+ℤ◌ ◌*ℤ◌ ◌-ℤ◌ to_i64 cast_decimal fen_to_yuan_string yuan_text negate Result.ok
    Result.fail exec read_clock id_text pay_rows payable update_where count_where sql_eq stoll
    epoch_to_beijing insert_payment payment_row deduct_balance charge_rows payer charged
    find_account flow_row build_flow insert_flow_row message_row build_message insert_message_row
    paid_answer checked_order build_payment scan scan_step finish
pays = (refl, refl, refl)

handle_callback-Ends_example :
    Ends env settings
      (req (codes "19.90") (codes "1f"))
      []
      start.committed
      (handle_callback env settings (req (codes "19.90") (codes "1f")) [] start)
handle_callback-Ends_example =
    handle_callback-Ends env settings (req (codes "19.90") (codes "1f")) [] start

abbrev first_byte : Bytes → ℕ
first_byte [] = 0
first_byte (c ∷ s) = c

-- The HMAC is the text 1f.
unsigned_request : ¬ IsSigned settings (req (codes "19.90") (codes "00"))
unfolding to_hex
unsigned_request signed = omega (arith, ap first_byte signed.signature)

handle_callback-unsigned_example :
    handle_callback env settings (req (codes "19.90") (codes "00")) [] start
    ≡ (done (refused_by_guards (req (codes "19.90") (codes "00"))), start)
handle_callback-unsigned_example =
    handle_callback-unsigned env settings (req (codes "19.90") (codes "00")) [] start
      unsigned_request

abbrev signed_request : PaymentCallbackReq
signed_request = req (codes "19.90") (codes "1f")

abbrev first_balance : List ℤ → ℕ
first_balance [] = 0
first_balance (b ∷ _) = pos_part b

balance_moved : pos 3010 ∷ [] ≢ pos 5000 ∷ []
balance_moved h = omega (arith, ap first_balance h)

has_settled :
    Paid env settings signed_request [] start.committed
      (handle_callback env settings signed_request [] start)
has_settled = elim (handle_callback-Ends env settings signed_request [] start) [
  | inl same ↦ absurd (
      balance_moved
        (sym pays.1 ∙ ap (λ (db : Db). map {B = ℤ} (λ r. r.balance) db.accounts) same.kept))
  | inr settled ↦ settled
]

abbrev user_of : Option Order → ℕ
user_of none = 0
user_of (some o) = o.user_id

payer_is_first : 1 ≡ has_settled.order.user_id
unfolding find_order find sql_eq str_eq
payer_is_first = ap user_of has_settled.accepted.order_found

wallet_of : account_of_row wallet ≡ has_settled.account
unfolding find_account find
wallet_of =
    let found : find_account 1 start.committed ≡ some has_settled.account =
      subst (λ u. find_account u start.committed ≡ some has_settled.account) (sym payer_is_first)
        has_settled.account_found in
    some_inj found

number_is_unique :
    count_where
      (λ (r : AccountRow). sql_eq r.account_no has_settled.account.account_no)
      start.committed.accounts
    ≡ 1
unfolding account_of_row count_where sql_eq str_eq
number_is_unique =
    subst
      (λ (a : Account).
        count_where (λ (r : AccountRow). sql_eq r.account_no a.account_no) start.committed.accounts
        ≡ 1)
      wallet_of refl

balance_fits : IsI64 has_settled.account.balance_fen
unfolding account_of_row
balance_fits = subst (λ (a : Account). IsI64 a.balance_fen) wallet_of (omega arith, omega arith)

handle_callback-accounts_example :
    let flow =
      build_flow signed_request has_settled.account has_settled.after
        has_settled.payment.amount_fen in
    (flow.before_fen ≡ has_settled.account.balance_fen)
    × (flow.after_fen ≡ has_settled.account.balance_fen -ℤ has_settled.payment.amount_fen)
handle_callback-accounts_example =
    handle_callback-accounts env settings signed_request [] start has_settled number_is_unique
      balance_fits

abbrev first_generator : Generator
first_generator = record { last_timestamp_ms = pos 1704067200000; sequence = 0; readings = 1 }

abbrev second_generator : Generator
second_generator = record { last_timestamp_ms = pos 1704067200001; sequence = 0; readings = 2 }

abbrev order_of_first : Order
order_of_first = record {
  order_no = codes "42";
  request_id = codes "0123456789abcdef";
  user_id = 1;
  product_id = 7;
  quantity = pos 1;
  unit_price_fen = pos 1990;
  total_amount_fen = pos 1990;
  status = pending_payment;
  expire_time = codes "2024-01-01 08:30:00";
  paid_at = [];
}

abbrev wallet_before : Account
wallet_before = record {
  account_no = codes "A1";
  user_id = 1;
  balance_fen = pos 5000;
  frozen_amount_fen = pos 0;
  status = 0;
}

abbrev wallet_after : Account
wallet_after = record wallet_before { balance_fen = pos 3010 }

handle_callback-succeeds_example :
    (handle_callback env settings signed_request [] (record start { faults = [] })).0
    ≡ done (paid_answer signed_request)
unfolding signed_by_channel verify_mock_sign config_value str_eq to_hex canonical find_order find
    yuan_string_to_fen layout next_number to_string digits format_time ◌+ℤ◌ ◌*ℤ◌ ◌-ℤ◌ to_i64
    cast_decimal fen_to_yuan_string yuan_text negate id_text payable update_where count_where sql_eq
    stoll epoch_to_beijing payment_row charge_rows payer charged find_account account_of_row
    flow_row build_flow message_row build_message scan scan_step finish fits_payment fits_flow
    fits_message biz_type_code direction_code
handle_callback-succeeds_example =
    handle_callback-succeeds env settings signed_request [] start order_of_first (pos 1990)
      (codes "2024-01-01 08:00:00") wallet_before wallet_after (layout 1704067200000 0)
      (layout 1704067200001 0) first_generator second_generator refl refl refl refl refl refl refl
      refl refl (omega arith) refl refl (omega arith) refl refl refl refl refl refl

parsed_amount : yuan_string_to_fen (codes "19.90") ≡ some (pos 1990)
unfolding yuan_string_to_fen scan scan_step finish
parsed_amount = refl

channel_time : epoch_to_beijing (codes "1704067200") ≡ some (codes "2024-01-01 08:00:00")
unfolding epoch_to_beijing stoll format_time to_string digits to_i64 ◌+ℤ◌
channel_time = refl

-- A later process whose database is the one that the first callback left.
abbrev paid_world : World
paid_world = record start {
  committed = (handle_callback env settings signed_request [] start).1.committed;
}

second_row_fits :
    fits_payment (
      payment_row (
        payment_at signed_request has_settled.payment.amount_fen []
          (layout 1704067200000 0)
          has_settled.payment.callback_time))
    ≡ true
unfolding fits_payment payment_row cast_decimal fen_to_yuan_string yuan_text negate id_text layout
    to_string digits
second_row_fits =
    rw
      (
        some_inj (sym has_settled.accepted.amount_parsed ∙ parsed_amount),
        some_inj (sym has_settled.accepted.payment_of.beijing ∙ channel_time),
      )
      refl

handle_callback-again_example :
    let (o, w) =
      handle_callback env settings signed_request [] (record paid_world { faults = [] }) in
    (o ≡ done (nothing signed_request)) × (w.committed ≡ paid_world.committed)
unfolding signed_by_channel verify_mock_sign config_value str_eq to_hex canonical next_number layout
handle_callback-again_example =
    handle_callback-again env env settings signed_request [] start paid_world
      (layout 1704067200000 0) first_generator has_settled refl refl refl refl second_row_fits
