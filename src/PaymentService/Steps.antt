-- ===== src/PaymentService/Steps.antt =====
-- The steps of `handleCallback`, when they return.
use mathlib.Core.Path.{subst}
use trade_reconcile_system.Base.{
  Bool-cases, Option, [], absent_then, ap, arith, count_where, find, guarded, if◌then◌else◌, inl,
  inr, none, refl, some, some_inj, sym, ℕ, ◌++◌, ◌==◌, ◌∙◌, ◌∷◌, ◌≡◌,
}
use trade_reconcile_system.Base.Bytes.{Bytes}
use trade_reconcile_system.Base.Int.{eq_ℤ, eq_ℤ_iff, ℤ}
use trade_reconcile_system.Channel.{epoch_to_beijing}
use trade_reconcile_system.Dao.Account.{
  charge_rows, deduct_balance, insert_flow_row, payer, same_request_biz,
}
use trade_reconcile_system.Dao.LocalMessage.{insert_message_row}
use trade_reconcile_system.Dao.Order.{find_order, get_by_order_no}
use trade_reconcile_system.Dao.Payment.{
  duplicate, insert_payment, insert_with_dedup, inserted, payment_clashes, payment_row,
}
use trade_reconcile_system.Db.{AccountFlowRow, Db, LocalMessageRow, PaymentRow}
use trade_reconcile_system.Db.Monad.{Env, World, done}
use trade_reconcile_system.Db.Monad.Returns.{
  >>-done, >>=-done, exec-done, next_id-done, or_throw-done, pure-done, query-done, require-done,
}
use trade_reconcile_system.Db.Text.{sql_eq}
use trade_reconcile_system.Models.Order.{Order}
use trade_reconcile_system.Models.Payment.{Payment, PaymentCallbackReq}
use trade_reconcile_system.Money.{yuan_string_to_fen}
use trade_reconcile_system.PaymentService.{build_payment, checked_order}

pub checked_order-done :
    (req : PaymentCallbackReq) (w : World) {r : Order × ℤ} {w' : World}
    → checked_order req w ≡ (done r, w')
    → (find_order req.order_no w.working ≡ some r.0)
      × (yuan_string_to_fen req.amount ≡ some r.1)
      × (r.1 ≡ r.0.total_amount_fen)
      × (w'.working ≡ w.working)
unfolding checked_order get_by_order_no
checked_order-done req w {r} e =
    let (found, w1, e1, r1) = >>=-done _ _ w e in
    let (order, w2, e2, r2) = >>=-done _ _ w1 r1 in
    let (amount, w3, e3, r3) = >>=-done _ _ w2 r2 in
    let (_, w4, e4, r4) = >>-done _ _ w3 r3 in
    let q1 = query-done (find_order req.order_no) w e1 in
    let q2 = or_throw-done found _ w1 e2 in
    let q3 = or_throw-done (yuan_string_to_fen req.amount) _ w2 e3 in
    let q4 = require-done (eq_ℤ amount order.total_amount_fen) _ w3 e4 in
    let q5 = pure-done (order, amount) w4 r4 in
    let first : order ≡ r.0 = ap (λ (p : Order × ℤ). p.0) q5.0 in
    let second : amount ≡ r.1 = ap (λ (p : Order × ℤ). p.1) q5.0 in
    let equal : amount ≡ order.total_amount_fen = (eq_ℤ_iff amount order.total_amount_fen).0 q4.0 in
    (
      sym q1.0 ∙ q2.0 ∙ ap some first,
      q3.0 ∙ ap some second,
      sym second ∙ equal ∙ ap (λ (o : Order). o.total_amount_fen) first,
      q5.1 ∙ q4.1 ∙ q3.1 ∙ q2.1 ∙ q1.1,
    )

-- What the payment of a callback is, but for its number and its time.
pub record PaymentOf (req : PaymentCallbackReq) (amount_fen : ℤ) (raw_body : Bytes) (p : Payment)
    : Type 0 where
  pub same_order : p.order_no ≡ req.order_no
  pub same_channel : p.channel ≡ req.channel
  pub same_trade_no : p.channel_trade_no ≡ req.channel_trade_no
  pub same_amount : p.amount_fen ≡ amount_fen
  pub beijing : epoch_to_beijing req.timestamp ≡ some p.callback_time
  pub kept_body : p.raw_body ≡ raw_body

pub build_payment-done :
    (env : Env) (req : PaymentCallbackReq) (amount_fen : ℤ) (raw_body : Bytes) (w : World)
    {p : Payment} {w' : World}
    → build_payment env req amount_fen raw_body w ≡ (done p, w')
    → PaymentOf req amount_fen raw_body p × (w'.working ≡ w.working)
unfolding build_payment
build_payment-done env req amount_fen raw_body w {p} e =
    let (payment_no, w1, e1, r1) = >>=-done _ _ w e in
    let (time, w2, e2, r2) = >>=-done _ _ w1 r1 in
    let q1 = next_id-done env w e1 in
    let q2 = or_throw-done (epoch_to_beijing req.timestamp) _ w1 e2 in
    let q3 = pure-done _ w2 r2 in
    (
      record {
        same_order = sym (ap (λ (p : Payment). p.order_no) q3.0);
        same_channel = sym (ap (λ (p : Payment). p.channel) q3.0);
        same_trade_no = sym (ap (λ (p : Payment). p.channel_trade_no) q3.0);
        same_amount = sym (ap (λ (p : Payment). p.amount_fen) q3.0);
        beijing = q2.0 ∙ ap (λ (p : Payment). some p.callback_time) q3.0;
        kept_body = sym (ap (λ (p : Payment). p.raw_body) q3.0);
      },
      q3.1 ∙ q2.1 ∙ q1,
    )

counted_first :
    {R : Type 0} (o : Option R) {x z : Db} (y : Db)
    → ◌≡◌ {A = Option (ℕ × Db)} (elim o [ none ↦ some (1, x) | some _ ↦ some (0, y) ]) (some (1, z))
    → (o ≡ none) × (z ≡ x)
counted_first none y h = (refl, sym (ap (λ (q : ℕ × Db). q.1) (some_inj h)))
counted_first (some r) y h = cc (ap (λ (q : ℕ × Db). q.0) (some_inj h))

insert_payment-inserts :
    (r : PaymentRow) (db : Db) {db' : Db}
    → insert_payment r db ≡ some (1, db')
    → (find (payment_clashes r) db.payments ≡ none)
      × (db' ≡ record db { payments = db.payments ++ r ∷ [] })
unfolding insert_payment
insert_payment-inserts r db e =
    let (fits, tried) = guarded _ e in counted_first (find (payment_clashes r) db.payments) db tried

pub inserted_one : {n : ℕ} → (if n == 1 then inserted else duplicate) ≡ inserted → n ≡ 1
inserted_one {n} h = elim (Bool-cases (n == 1)) [ inl hit ↦ ground arith | inr miss ↦ ground arith ]

pub insert_with_dedup-inserted :
    (p : Payment) (w : World) {w' : World}
    → insert_with_dedup p w ≡ (done inserted, w')
    → (find (payment_clashes (payment_row p)) w.working.payments ≡ none)
      × (w'.working ≡ record w.working { payments = w.working.payments ++ payment_row p ∷ [] })
unfolding insert_with_dedup
insert_with_dedup-inserted p w {w'} e =
    let (n, w1, e1, r1) = >>=-done _ _ w e in
    let q1 = exec-done (insert_payment (payment_row p)) w e1 in
    let q2 = pure-done (if n == 1 then inserted else duplicate) w1 r1 in
    let (absent, written) = insert_payment-inserts (payment_row p) w.working (
      subst (λ n. insert_payment (payment_row p) w.working ≡ some (n, w1.working))
        (inserted_one q2.0) q1) in
    (absent, q2.1 ∙ written)

pub insert_flow_row-done :
    (r : AccountFlowRow) (db : Db) {v : Unit {0}} {db' : Db}
    → insert_flow_row r db ≡ some (v, db')
    → (find (same_request_biz r) db.flows ≡ none) × (db' ≡ record db { flows = db.flows ++ r ∷ [] })
unfolding insert_flow_row
insert_flow_row-done r db e =
    let (fits, tried) = guarded _ e in
    let (absent, same) = absent_then (find (same_request_biz r) db.flows) _ tried in
    (absent, sym (ap (λ (q : Unit {0} × Db). q.1) same))

pub insert_message_row-done :
    (r : LocalMessageRow) (db : Db) {v : Unit {0}} {db' : Db}
    → insert_message_row r db ≡ some (v, db')
    → db' ≡ record db { messages = db.messages ++ r ∷ [] }
unfolding insert_message_row
insert_message_row-done r db e =
    let (fits, tried) = guarded _ e in
    let (absent, same) =
      absent_then (find (λ s. sql_eq s.message_id r.message_id) db.messages) _ tried in
    sym (ap (λ (q : Unit {0} × Db). q.1) same)

pub deduct_balance-done :
    (account_no : Bytes) (amount : ℤ) (db : Db) {n : ℕ} {db' : Db}
    → deduct_balance account_no amount db ≡ some (n, db')
    → (n ≡ count_where (payer account_no amount) db.accounts)
      × (db' ≡ record db { accounts = charge_rows account_no amount db.accounts })
unfolding deduct_balance
deduct_balance-done account_no amount db e =
    let (fits, same) = guarded _ e in
    let q = some_inj same in (sym (ap (λ (q : ℕ × Db). q.0) q), sym (ap (λ (q : ℕ × Db). q.1) q))
