-- ===== src/PaymentService/Accounting.antt =====
-- The flow that an accepted callback writes, against the balances before and after it.
use mathlib.Core.Option
use mathlib.Core.Path.{subst}
use trade_reconcile_system.Base.{
  Option, ap, arith, count_where, find, if◌then◌else◌, none, refl, some, some_inj, sym, true, ℕ,
  ◌<◌, ◌==◌, ◌∙◌, ◌≡◌,
}
use trade_reconcile_system.Base.Bytes.{Bytes}
use trade_reconcile_system.Base.Counts.{find-only, find-update_where}
use trade_reconcile_system.Base.Int.{
  +ℤ_parts, -ℤ_parts, IsI64, eq_of_parts, to_i64, to_i64_lem, ℤ, ◌+ℤ◌, ◌-ℤ◌,
}
use trade_reconcile_system.Channel.{Settings}
use trade_reconcile_system.Dao.Account.{account_of_row, charge_rows, charged, find_account, payer}
use trade_reconcile_system.Db.{AccountRow, Db}
use trade_reconcile_system.Db.Monad.{Env, World}
use trade_reconcile_system.Db.Text.{sql_eq, sql_eq_refl}
use trade_reconcile_system.Models.Account.{Account}
use trade_reconcile_system.Models.Payment.{PaymentCallbackReq}
use trade_reconcile_system.PaymentService.{build_flow, handle_callback}
use trade_reconcile_system.PaymentService.Atomic.{Paid}

map-some :
    {A B : Type 0} (f : A → B) (o : Option A) {b : B}
    → Option.map f o ≡ some b
    → (a : A) × (o ≡ some a) × (f a ≡ b)
map-some f none h = cc
map-some f (some a) h = (a, refl, some_inj h)

payer-same_account :
    (account_no : Bytes) (amount : ℤ) (r : AccountRow)
    → payer account_no amount r ≡ true
    → sql_eq r.account_no account_no ≡ true
unfolding payer
payer-same_account account_no amount r h = ground arith

-- The account read back after the charge has the balance before it less the amount, when the
-- account's number is unique.
charged-balance :
    (user_id : ℕ) (amount : ℤ) (db : Db) (account after : Account)
    → find_account user_id db ≡ some account
    → count_where (λ r. sql_eq r.account_no account.account_no) db.accounts ≡ 1
    → 0 < count_where (payer account.account_no amount) db.accounts
    → find_account user_id
        (record db { accounts = charge_rows account.account_no amount db.accounts })
      ≡ some after
    → after.balance_fen ≡ account.balance_fen -ℤ amount
unfolding find_account account_of_row charge_rows charged
charged-balance user_id amount db account after found unique enough read_back =
    let mine = λ (r : AccountRow). r.user_id == user_id in
    let (row, row_found, same) = map-some account_of_row (find mine db.accounts) found in
    let (later, later_found, same_later) =
      map-some account_of_row (find mine (charge_rows account.account_no amount db.accounts))
        read_back in
    let number : row.account_no ≡ account.account_no = ap (λ (a : Account). a.account_no) same in
    let pays : payer account.account_no amount row ≡ true =
      find-only (λ r. sql_eq r.account_no account.account_no) (payer account.account_no amount) mine
        db.accounts (payer-same_account account.account_no amount) unique enough row_found
        (subst (λ n. sql_eq n account.account_no ≡ true) (sym number)
          (sql_eq_refl account.account_no)) in
    let updated =
      find-update_where mine (payer account.account_no amount) (charged amount) db.accounts
        (λ r. refl) row_found in
    let now : later ≡ charged amount row =
      some_inj (sym later_found ∙ updated) ∙ ap (λ b. if b then charged amount row else row) pays in
    sym (ap (λ (a : Account). a.balance_fen) same_later)
    ∙ ap (λ (r : AccountRow). r.balance) now
    ∙ ap (λ (a : Account). a.balance_fen -ℤ amount) same

cancel : (a b : ℤ) → (a -ℤ b) +ℤ b ≡ a
cancel a b = eq_of_parts ((a -ℤ b) +ℤ b) a (omega (arith, +ℤ_parts (a -ℤ b) b, -ℤ_parts a b))

-- When `handleCallback` has accepted a callback, the number of the payer's account is unique and
-- its balance fits in 64 bits, the flow says what happened to the account: `before` is the balance
-- that the account had, and `after`, which is the balance read back, is that less the amount.
pub handle_callback-accounts :
    (env : Env) (settings : Settings) (req : PaymentCallbackReq) (raw_body : Bytes) (w : World)
    → (settled : Paid env settings req raw_body w.committed
        (handle_callback env settings req raw_body w))
    → count_where (λ r. sql_eq r.account_no settled.account.account_no) w.committed.accounts ≡ 1
    → IsI64 settled.account.balance_fen
    → let flow = build_flow req settled.account settled.after settled.payment.amount_fen in
      (flow.before_fen ≡ settled.account.balance_fen)
      × (flow.after_fen ≡ settled.account.balance_fen -ℤ settled.payment.amount_fen)
unfolding build_flow
handle_callback-accounts env settings req raw_body w settled unique fits =
    let amount = settled.payment.amount_fen in
    let less =
      charged-balance settled.order.user_id amount w.committed settled.account settled.after
        settled.account_found unique settled.enough settled.read_back in
    (
      ap (λ b. to_i64 (b +ℤ amount)) less
          ∙ ap to_i64 (cancel settled.account.balance_fen amount)
          ∙ to_i64_lem settled.account.balance_fen fits,
      less,
    )
