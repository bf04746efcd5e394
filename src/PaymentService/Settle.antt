-- ===== src/PaymentService/Settle.antt =====
-- Steps 5 and 6 of `handleCallback`, when they return: the account, its flow and the message.
use mathlib.Core.Path.{subst}
use trade_reconcile_system.Base.{
  [], ap, arith, count_where, find, none, not, some, sym, true, ℕ, ◌++◌, ◌<◌, ◌==◌, ◌∙◌, ◌∷◌, ◌≡◌,
}
use trade_reconcile_system.Base.Bytes.{Bytes}
use trade_reconcile_system.Base.Int.{ℤ}
use trade_reconcile_system.Channel.{Settings}
use trade_reconcile_system.Dao.Account.{
  charge_rows, deduct, deduct_balance, find_account, flow_row, get_by_user_id, insert_flow,
  insert_flow_row, payer, same_request_biz,
}
use trade_reconcile_system.Dao.LocalMessage.{insert_message, insert_message_row, message_row}
use trade_reconcile_system.Db.{Db}
use trade_reconcile_system.Db.Monad.{Env, World, done}
use trade_reconcile_system.Db.Monad.Returns.{
  >>-done, >>=-done, exec-done, next_id-done, or_throw-done, query-done, require-done,
}
use trade_reconcile_system.Db.Text.{cast_decimal, cast_decimal-fen_to_yuan_string}
use trade_reconcile_system.Models.Account.{Account}
use trade_reconcile_system.Models.Order.{Order}
use trade_reconcile_system.Models.Payment.{PaymentCallbackReq}
use trade_reconcile_system.Money.{fen_to_yuan_string}
use trade_reconcile_system.PaymentService.{build_flow, build_message, charge, outbox}
use trade_reconcile_system.PaymentService.Steps.{
  deduct_balance-done, insert_flow_row-done, insert_message_row-done,
}

-- What the charge has found and done, on the databases before and after it.
pub record Charged (req : PaymentCallbackReq) (order : Order) (amount_fen : ℤ) (db db' : Db)
    : Type 0 where
  pub account : Account
  pub found : find_account order.user_id db ≡ some account
  pub enough : 0 < count_where (payer account.account_no amount_fen) db.accounts
  pub after : Account
  pub read_back :
      find_account order.user_id
        (record db { accounts = charge_rows account.account_no amount_fen db.accounts })
      ≡ some after
  pub first_flow :
      find (same_request_biz (flow_row (build_flow req account after amount_fen))) db.flows ≡ none
  pub written : db' ≡ record db {
    accounts = charge_rows account.account_no amount_fen db.accounts;
    flows = db.flows ++ flow_row (build_flow req account after amount_fen) ∷ [];
  }

pub affected_some : {affected n : ℕ} → affected ≡ n → not (affected == 0) ≡ true → 0 < n
affected_some h k = ground arith

pub deduct-done :
    (account_no : Bytes) (amount_fen : ℤ) (w : World) {n : ℕ} {w' : World}
    → deduct account_no amount_fen w ≡ (done n, w')
    → (n ≡ count_where (payer account_no amount_fen) w.working.accounts)
      × (w'.working
          ≡ record w.working { accounts = charge_rows account_no amount_fen w.working.accounts })
unfolding deduct
deduct-done account_no amount_fen w {n} {w'} e =
    deduct_balance-done account_no amount_fen w.working (
      subst (λ a. deduct_balance account_no a w.working ≡ some (n, w'.working))
        (cast_decimal-fen_to_yuan_string amount_fen)
        (exec-done (deduct_balance account_no (cast_decimal (fen_to_yuan_string amount_fen))) w e))

-- The order found and the database at its start are those of the charge.
Charged-from :
    (req : PaymentCallbackReq) (order : Order) (amount_fen : ℤ) (db d2 d3 d4 db' : Db)
    (account after : Account)
    → d2 ≡ db
    → find_account order.user_id db ≡ some account
    → 0 < count_where (payer account.account_no amount_fen) d2.accounts
    → d3 ≡ record d2 { accounts = charge_rows account.account_no amount_fen d2.accounts }
    → d4 ≡ d3
    → find_account order.user_id d3 ≡ some after
    → find (same_request_biz (flow_row (build_flow req account after amount_fen))) d4.flows ≡ none
    → db'
      ≡ record d4 { flows = d4.flows ++ flow_row (build_flow req account after amount_fen) ∷ [] }
    → Charged req order amount_fen db db'
Charged-from req order amount_fen db d2 d3 d4 db' account after h1 found enough h2 h3 back absent
      h4 =
    let flow = flow_row (build_flow req account after amount_fen) in
    let h5 : d3 ≡ record db { accounts = charge_rows account.account_no amount_fen db.accounts } =
      h2
      ∙ ap
          (λ (d : Db). record d { accounts = charge_rows account.account_no amount_fen d.accounts })
          h1 in
    record {
      account = account;
      found = found;
      enough =
          subst (λ (d : Db). 0 < count_where (payer account.account_no amount_fen) d.accounts) h1
            enough;
      after = after;
      read_back = subst (λ d. find_account order.user_id d ≡ some after) h5 back;
      first_flow = subst (λ (d : Db). find (same_request_biz flow) d.flows ≡ none) (h3 ∙ h5) absent;
      written = h4 ∙ ap (λ (d : Db). record d { flows = d.flows ++ flow ∷ [] }) (h3 ∙ h5);
    }

pub charge-done :
    (req : PaymentCallbackReq) (order : Order) (amount_fen : ℤ) (w : World) {u : Unit {0}}
    {w' : World}
    → charge req order amount_fen w ≡ (done u, w')
    → Charged req order amount_fen w.working w'.working
unfolding charge get_by_user_id insert_flow
charge-done req order amount_fen w {u} {w'} e =
    let (found, w1, e1, r1) = >>=-done _ _ w e in
    let (account, w2, e2, r2) = >>=-done _ _ w1 r1 in
    let (affected, w3, e3, r3) = >>=-done _ _ w2 r2 in
    let (_, w4, e4, r4) = >>-done _ _ w3 r3 in
    let (read_back, w5, e5, r5) = >>=-done _ _ w4 r4 in
    let (after, w6, e6, r6) = >>=-done _ _ w5 r5 in
    let q1 = query-done (find_account order.user_id) w e1 in
    let q2 = or_throw-done found _ w1 e2 in
    let q3 = deduct-done account.account_no amount_fen w2 e3 in
    let q4 = require-done (not (affected == 0)) _ w3 e4 in
    let q5 = query-done (find_account order.user_id) w4 e5 in
    let q6 = or_throw-done read_back _ w5 e6 in
    let flow = flow_row (build_flow req account after amount_fen) in
    let q7 = insert_flow_row-done flow w6.working (exec-done (insert_flow_row flow) w6 r6) in
    Charged-from req order amount_fen w.working w2.working w4.working w6.working w'.working account
      after (q2.1 ∙ q1.1) (sym q1.0 ∙ q2.0) (affected_some q3.0 q4.0) (q4.1 ∙ q3.1) (q6.1 ∙ q5.1)
      (sym q5.0 ∙ q6.0) q7.0 q7.1

pub outbox-done :
    (env : Env) (settings : Settings) (req : PaymentCallbackReq) (order : Order) (w : World)
    {u : Unit {0}} {w' : World}
    → outbox env settings req order w ≡ (done u, w')
    → (id : Bytes) × (w'.working ≡ record w.working {
      messages =
          w.working.messages
          ++ message_row env.db_now (build_message env settings req order id) ∷ [];
    })
unfolding outbox insert_message
outbox-done env settings req order w {u} {w'} e =
    let (id, w1, e1, r1) = >>=-done _ _ w e in
    let q1 = next_id-done env w e1 in
    let row = message_row env.db_now (build_message env settings req order id) in
    let q2 = insert_message_row-done row w1.working (exec-done (insert_message_row row) w1 r1) in
    (id, q2 ∙ ap (λ (d : Db). record d { messages = d.messages ++ row ∷ [] }) q1)
