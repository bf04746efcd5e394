-- ===== src/PaymentService/Succeeds.antt =====
-- When `handleCallback` does accept a callback.
use trade_reconcile_system.Base.{
  [], count_where, false, find, none, not, refl, some, true, ℕ, ◌++◌, ◌<◌, ◌∷◌, ◌≡◌,
}
use trade_reconcile_system.Base.Bytes.{Bytes, str_eq}
use trade_reconcile_system.Base.Calendar.{format_time}
use trade_reconcile_system.Base.Int.{eq_ℤ, pos, ℤ}
use trade_reconcile_system.Channel.{
  Settings, epoch_to_beijing, signed_by_channel, supported_channel,
}
use trade_reconcile_system.Dao.{fits_decimal}
use trade_reconcile_system.Dao.Account.{
  charge_rows, find_account, fits_flow, flow_row, payer, same_request_biz,
}
use trade_reconcile_system.Dao.LocalMessage.{fits_message, has_message_id, message_row}
use trade_reconcile_system.Dao.Order.{find_order, mark_paid, pay_rows, payable}
use trade_reconcile_system.Dao.Payment.{fits_payment, payment_clashes, payment_row}
use trade_reconcile_system.Db.Monad.{
  Env, World, begin_transaction, commit, done, exec, exec_on, guard_exit, in_transaction, next_id,
  or_throw, pure, resume, store_generated, transaction, ◌>>=◌, ◌>>◌,
}
use trade_reconcile_system.Ids.{Generator, generated, id_text, next_number}
use trade_reconcile_system.Models.Account.{Account}
use trade_reconcile_system.Models.Order.{Order}
use trade_reconcile_system.Models.Payment.{Payment, PaymentCallbackReq, success_pay}
use trade_reconcile_system.Money.{yuan_string_to_fen}
use trade_reconcile_system.PaymentService.{
  after_insert, after_mark, body, build_flow, build_message, build_payment, callback_transaction,
  caught, handle_callback, paid_answer, settle,
}
use trade_reconcile_system.PaymentService.Stages.{charges, checks, inserts, not_zero_eq, sends}

-- The payment of a callback, from the generator's number and the channel's time.
abbrev pub payment_at : PaymentCallbackReq → ℤ → Bytes → ℕ → Bytes → Payment
payment_at req amount_fen raw_body n time = record {
  payment_no = id_text n;
  order_no = req.order_no;
  channel = req.channel;
  channel_trade_no = req.channel_trade_no;
  amount_fen = amount_fen;
  status = success_pay;
  callback_time = time;
  raw_body = raw_body;
}

pub builds :
    (env : Env) (req : PaymentCallbackReq) (amount_fen : ℤ) (raw_body : Bytes) (w : World) (n : ℕ)
    (g : Generator) (time : Bytes)
    → next_number env.rounds env.clock w.generator ≡ generated n g
    → epoch_to_beijing req.timestamp ≡ some time
    → build_payment env req amount_fen raw_body (record w { faults = [] })
      ≡ (done (payment_at req amount_fen raw_body n time), record w { generator = g; faults = [] })
unfolding build_payment next_id store_generated ◌>>=◌ resume pure or_throw
builds env req amount_fen raw_body w n g time issued told = rw issued (rw told refl)

-- When a callback of the supported channel is signed, names a pending order with its exact amount
-- and a new channel trade number, the payer's account can be charged, the rows fit their tables and
-- are new, the generator gives two numbers, and no statement fails, `handleCallback` confirms it.
pub handle_callback-succeeds :
    (env : Env) (settings : Settings) (req : PaymentCallbackReq) (raw_body : Bytes) (w : World)
    → (order : Order) (amount_fen : ℤ) (time : Bytes) (account after : Account)
    → (n m : ℕ) (g h : Generator) → str_eq req.channel supported_channel ≡ true
    → signed_by_channel settings req ≡ true
    → find_order req.order_no w.committed ≡ some order
    → yuan_string_to_fen req.amount ≡ some amount_fen
    → eq_ℤ amount_fen order.total_amount_fen ≡ true
    → next_number env.rounds env.clock w.generator ≡ generated n g
    → epoch_to_beijing req.timestamp ≡ some time
    → fits_payment (payment_row (payment_at req amount_fen raw_body n time)) ≡ true
    → find
        (payment_clashes (payment_row (payment_at req amount_fen raw_body n time)))
        w.committed.payments
      ≡ none
    → 0 < count_where (payable req.order_no) w.committed.orders
    → find_account order.user_id w.committed ≡ some account
    → count_where
        (λ r. not (fits_decimal r.balance))
        (charge_rows account.account_no amount_fen w.committed.accounts)
      ≡ 0
    → 0 < count_where (payer account.account_no amount_fen) w.committed.accounts
    → find_account order.user_id (record w.committed {
      accounts = charge_rows account.account_no amount_fen w.committed.accounts;
    })
      ≡ some after
    → fits_flow (flow_row (build_flow req account after amount_fen)) ≡ true
    → find (same_request_biz (flow_row (build_flow req account after amount_fen))) w.committed.flows
      ≡ none
    → next_number env.rounds env.clock g ≡ generated m h
    → fits_message (message_row env.db_now (build_message env settings req order (id_text m)))
      ≡ true
    → find (has_message_id (id_text m)) w.committed.messages ≡ none
    → (handle_callback env settings req raw_body (record w { faults = [] })).0
      ≡ done (paid_answer req)
unfolding handle_callback callback_transaction caught transaction body after_insert after_mark
    mark_paid settle exec exec_on in_transaction pure begin_transaction guard_exit commit
    find_account ◌>>=◌ ◌>>◌ resume
handle_callback-succeeds env settings req raw_body w order amount_fen time account after n m g h
      mock signed found parsed equal issued told fits absent pending_rows owner in_column enough
      back flow_fits flow_new again message_fits message_new =
    let p = payment_at req amount_fen raw_body n time in
    let u : World = record w { working = w.committed; finished = false } in
    let u1 : World = record u { generator = g } in
    let u2 : World = record u1 {
      working = record w.committed {
        payments = w.committed.payments ++ payment_row p ∷ [];
        orders = pay_rows req.order_no (format_time (pos env.db_now)) w.committed.orders;
      };
    } in
    let u3 : World = record u2 {
      working = record u2.working {
        accounts = charge_rows account.account_no amount_fen w.committed.accounts;
        flows = w.committed.flows ++ flow_row (build_flow req account after amount_fen) ∷ [];
      };
    } in
    rw mock (
      rw signed (
        rw (checks req u order amount_fen found parsed equal) (
          rw (builds env req amount_fen raw_body u n g time issued told) (
            rw (inserts p u1 fits absent) (
              rw (not_zero_eq pending_rows) (
                rw
                  (charges req order amount_fen u2 account after owner in_column enough back
                    flow_fits flow_new)
                  (rw (sends env settings req order u3 m h again message_fits message_new)
                    refl)))))))
