-- ===== src/PaymentService/Stages.antt =====
-- The stages of a callback that confirms a payment.
use trade_reconcile_system.Base.{
  [], arith, count_where, false, find, none, not, refl, some, true, ℕ, ◌++◌, ◌<◌, ◌==◌, ◌∷◌, ◌≡◌,
}
use trade_reconcile_system.Base.Bytes.{Bytes}
use trade_reconcile_system.Base.Int.{eq_ℤ, ℤ}
use trade_reconcile_system.Channel.{Settings}
use trade_reconcile_system.Dao.{fits_decimal}
use trade_reconcile_system.Dao.Account.{
  charge_rows, deduct, deduct_balance, find_account, fits_flow, flow_row, get_by_user_id,
  insert_flow, insert_flow_row, payer, same_request_biz,
}
use trade_reconcile_system.Dao.LocalMessage.{
  fits_message, has_message_id, insert_message, insert_message_row, message_row,
}
use trade_reconcile_system.Dao.Order.{find_order, get_by_order_no}
use trade_reconcile_system.Dao.Payment.{
  fits_payment, insert_payment, insert_with_dedup, inserted, payment_clashes, payment_row,
}
use trade_reconcile_system.Db.Monad.{
  Env, World, done, exec, exec_on, in_transaction, next_id, or_throw, pure, require, resume,
  store_generated, ◌>>=◌, ◌>>◌,
}
use trade_reconcile_system.Db.Text.{cast_decimal-fen_to_yuan_string}
use trade_reconcile_system.Ids.{Generator, generated, id_text, next_number}
use trade_reconcile_system.Models.Account.{Account}
use trade_reconcile_system.Models.Order.{Order}
use trade_reconcile_system.Models.Payment.{Payment, PaymentCallbackReq}
use trade_reconcile_system.Money.{yuan_string_to_fen}
use trade_reconcile_system.PaymentService.{build_flow, build_message, charge, checked_order, outbox}

-- The steps on a world where no statement fails, each with what it needs.
pub checks :
    (req : PaymentCallbackReq) (w : World) (order : Order) (amount_fen : ℤ)
    → find_order req.order_no w.working ≡ some order
    → yuan_string_to_fen req.amount ≡ some amount_fen
    → eq_ℤ amount_fen order.total_amount_fen ≡ true
    → checked_order req (record w { faults = [] })
      ≡ (done (order, amount_fen), record w { faults = [] })
unfolding checked_order get_by_order_no exec exec_on in_transaction ◌>>=◌ ◌>>◌ resume pure or_throw
    require
checks req w order amount_fen found parsed equal = rw (found, parsed, equal)

pub inserts :
    (p : Payment) (w : World)
    → fits_payment (payment_row p) ≡ true
    → find (payment_clashes (payment_row p)) w.working.payments ≡ none
    → insert_with_dedup p (record w { faults = [] }) ≡ (
      done inserted,
      record w {
        working = record w.working { payments = w.working.payments ++ payment_row p ∷ [] };
        faults = [];
      },
    )
unfolding insert_with_dedup insert_payment exec exec_on in_transaction ◌>>=◌ resume pure
inserts p w fits absent = rw (fits, absent)

pub not_zero : {n : ℕ} → 0 < n → not (n == 0) ≡ true
not_zero h = ground arith

pub not_zero_eq : {n : ℕ} → 0 < n → (n == 0) ≡ false
not_zero_eq h = ground arith

pub deducts :
    (account_no : Bytes) (amount_fen : ℤ) (w : World)
    → count_where
        (λ r. not (fits_decimal r.balance))
        (charge_rows account_no amount_fen w.working.accounts)
      ≡ 0
    → deduct account_no amount_fen (record w { faults = [] }) ≡ (
      done (count_where (payer account_no amount_fen) w.working.accounts),
      record w {
        working = record w.working {
          accounts = charge_rows account_no amount_fen w.working.accounts;
        };
        faults = [];
      },
    )
unfolding deduct deduct_balance exec exec_on in_transaction
deducts account_no amount_fen w fits =
    rw (cast_decimal-fen_to_yuan_string amount_fen) (rw fits refl)

pub charges :
    (req : PaymentCallbackReq) (order : Order) (amount_fen : ℤ) (w : World)
    (account after : Account)
    → find_account order.user_id w.working ≡ some account
    → count_where
        (λ r. not (fits_decimal r.balance))
        (charge_rows account.account_no amount_fen w.working.accounts)
      ≡ 0
    → 0 < count_where (payer account.account_no amount_fen) w.working.accounts
    → find_account order.user_id (record w.working {
      accounts = charge_rows account.account_no amount_fen w.working.accounts;
    })
      ≡ some after
    → fits_flow (flow_row (build_flow req account after amount_fen)) ≡ true
    → find (same_request_biz (flow_row (build_flow req account after amount_fen))) w.working.flows
      ≡ none
    → charge req order amount_fen (record w { faults = [] }) ≡ (
      done tt,
      record w {
        working = record w.working {
          accounts = charge_rows account.account_no amount_fen w.working.accounts;
          flows = w.working.flows ++ flow_row (build_flow req account after amount_fen) ∷ [];
        };
        faults = [];
      },
    )
unfolding charge get_by_user_id insert_flow insert_flow_row exec exec_on in_transaction ◌>>=◌ ◌>>◌
    resume pure or_throw require
charges req order amount_fen w account after found fits enough back flow_fits flow_new = rw (
  found,
  deducts account.account_no amount_fen w fits,
  not_zero enough,
  back,
  flow_fits,
  flow_new,
)

pub sends :
    (env : Env) (settings : Settings) (req : PaymentCallbackReq) (order : Order) (w : World) (n : ℕ)
    (g : Generator)
    → next_number env.rounds env.clock w.generator ≡ generated n g
    → fits_message (message_row env.db_now (build_message env settings req order (id_text n)))
      ≡ true
    → find (has_message_id (id_text n)) w.working.messages ≡ none
    → outbox env settings req order (record w { faults = [] }) ≡ (
      done tt,
      record w {
        working = record w.working {
          messages =
              w.working.messages
              ++ message_row env.db_now (build_message env settings req order (id_text n)) ∷ [];
        };
        generator = g;
        faults = [];
      },
    )
unfolding outbox next_id store_generated insert_message insert_message_row message_row build_message
    exec exec_on in_transaction ◌>>=◌ resume
sends env settings req order w n g issued fits absent = rw issued (rw fits (rw absent refl))
