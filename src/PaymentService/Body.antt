-- ===== src/PaymentService/Body.antt =====
-- How the body of the transaction of `handleCallback` ends, up to the commit.
use mathlib.Core.Path.{subst}
use trade_reconcile_system.Base.{
  Bool-cases, [], ap, count_where, false, find, if◌then◌else◌, inl, inr, none, not, refl, some, sym,
  true, ℕ, ◌++◌, ◌<◌, ◌==◌, ◌∙◌, ◌∷◌, ◌≡◌,
}
use trade_reconcile_system.Base.Bytes.{Bytes}
use trade_reconcile_system.Base.Calendar.{format_time}
use trade_reconcile_system.Base.Int.{pos, ℤ}
use trade_reconcile_system.Channel.{Settings}
use trade_reconcile_system.Dao.Order.{find_order, mark_paid, pay_rows, payable}
use trade_reconcile_system.Dao.Payment.{
  PaymentInsertOutcome, duplicate, insert_with_dedup, inserted, payment_clashes, payment_row,
}
use trade_reconcile_system.Db.{Db}
use trade_reconcile_system.Db.Monad.{Env, World, done, ◌>>=◌}
use trade_reconcile_system.Db.Monad.Laws.{>>=-ends}
use trade_reconcile_system.Db.Monad.Returns.{update-done}
use trade_reconcile_system.Models.Order.{Order}
use trade_reconcile_system.Models.Payment.{Payment, PaymentCallbackReq}
use trade_reconcile_system.Money.{yuan_string_to_fen}
use trade_reconcile_system.PaymentService.{
  after_insert, after_mark, body, build_payment, checked_order, not_payable, settle,
}
use trade_reconcile_system.PaymentService.Atomic.{
  Accepted, Ends, build_payment-Keeps, checked_order-Keeps, hang-Unchanged, insert_with_dedup-Keeps,
  mark_paid-Keeps, thrown-Unchanged,
}
use trade_reconcile_system.PaymentService.Commits.{
  marked_db, not_payable-Unchanged, replayed-Unchanged, settle-Ends,
}
use trade_reconcile_system.PaymentService.Settle.{affected_some}
use trade_reconcile_system.PaymentService.Steps.{
  PaymentOf, build_payment-done, checked_order-done, insert_with_dedup-inserted,
}

after_mark-Ends :
    (env : Env) (settings : Settings) (req : PaymentCallbackReq) (raw_body : Bytes) (db : Db)
    (u : World) (order : Order) (p : Payment) (affected : ℕ)
    → u.committed ≡ db
    → u.finished ≡ false
    → (not (affected == 0) ≡ true
        → Accepted req raw_body db order p × (u.working ≡ marked_db env req p db))
    → Ends env settings req raw_body db (after_mark env settings req order p.amount_fen affected u)
unfolding after_mark
after_mark-Ends env settings req raw_body db u order p affected h f accept =
    elim (Bool-cases (affected == 0)) [
      | inl none_marked ↦
          subst
            (λ b.
              Ends env settings req raw_body db
                ((if b then not_payable req else settle env settings req order p.amount_fen) u))
            (sym none_marked) (inl (not_payable-Unchanged req db u h))
      | inr some_marked ↦
          let (accepted, working) = accept (ap not some_marked) in
          subst
            (λ b.
              Ends env settings req raw_body db
                ((if b then not_payable req else settle env settings req order p.amount_fen) u))
            (sym some_marked)
            (settle-Ends env settings req raw_body db u order p accepted h f working)
    ]

-- The checks of `body`, but for the state of the order.
Checked : PaymentCallbackReq → Bytes → Db → Order → Payment → Type 0
Checked req raw_body db order p =
    (find_order req.order_no db ≡ some order)
    × (yuan_string_to_fen req.amount ≡ some p.amount_fen)
    × (p.amount_fen ≡ order.total_amount_fen)
    × PaymentOf req p.amount_fen raw_body p

after_insert-Ends :
    (env : Env) (settings : Settings) (req : PaymentCallbackReq) (raw_body : Bytes) (db : Db)
    (u : World) (order : Order) (p : Payment) (outcome : PaymentInsertOutcome)
    → Checked req raw_body db order p
    → u.committed ≡ db
    → u.finished ≡ false
    → (outcome ≡ inserted
        → (find (payment_clashes (payment_row p)) db.payments ≡ none)
          × (u.working ≡ record db { payments = db.payments ++ payment_row p ∷ [] }))
    → Ends env settings req raw_body db (after_insert env settings req order p.amount_fen outcome u)
unfolding after_insert Checked mark_paid
after_insert-Ends env settings req raw_body db u order p duplicate checked h f new =
    inl (replayed-Unchanged req db u h)
after_insert-Ends env settings req raw_body db u order p inserted (found, parsed, equal, built) h f
      new =
    let (fresh, working) = new refl in
    >>=-ends (Ends env settings req raw_body db) (mark_paid env req.order_no) _ u
      (mark_paid-Keeps env req.order_no) (λ e v l. inl (thrown-Unchanged req db e v (l ∙ h)))
      (λ v l. inl (hang-Unchanged req db v (l ∙ h)))
      (λ affected v marks l g.
        let q = update-done _ _ u marks in
        after_mark-Ends env settings req raw_body db v order p affected (l ∙ h) (g ∙ f)
          (λ some_marked. (
            record {
              order_found = found;
              amount_parsed = parsed;
              amount_equal = equal;
              payment_of = built;
              first_trade = fresh;
              order_pending =
                  subst (λ (d : Db). 0 < count_where (payable req.order_no) d.orders) working
                    (affected_some q.0 some_marked);
            },
            q.1
                ∙ ap
                    (λ (d : Db). record d {
                      orders = pay_rows req.order_no (format_time (pos env.db_now)) d.orders;
                    })
                    working,
          )))

dedup-Ends :
    (env : Env) (settings : Settings) (req : PaymentCallbackReq) (raw_body : Bytes) (db : Db)
    (u : World) (order : Order) (p : Payment)
    → Checked req raw_body db order p
    → u.committed ≡ db
    → u.working ≡ db
    → u.finished ≡ false
    → Ends env settings req raw_body db
        ((insert_with_dedup p >>= after_insert env settings req order p.amount_fen) u)
dedup-Ends env settings req raw_body db u order p checked h working f =
    >>=-ends (Ends env settings req raw_body db) (insert_with_dedup p) _ u
      (insert_with_dedup-Keeps p) (λ e v l. inl (thrown-Unchanged req db e v (l ∙ h)))
      (λ v l. inl (hang-Unchanged req db v (l ∙ h)))
      (λ outcome v inserts l g.
        after_insert-Ends env settings req raw_body db v order p outcome checked (l ∙ h) (g ∙ f)
          (λ e.
            subst
              (λ (d : Db).
                (find (payment_clashes (payment_row p)) d.payments ≡ none)
                × (v.working ≡ record d { payments = d.payments ++ payment_row p ∷ [] }))
              working
              (insert_with_dedup-inserted p u
                (subst (λ o. insert_with_dedup p u ≡ (done o, v)) e inserts))))

payment-Ends :
    (env : Env) (settings : Settings) (req : PaymentCallbackReq) (raw_body : Bytes) (db : Db)
    (u : World) (order : Order) (amount_fen : ℤ)
    → find_order req.order_no db ≡ some order
    → yuan_string_to_fen req.amount ≡ some amount_fen
    → amount_fen ≡ order.total_amount_fen
    → u.committed ≡ db
    → u.working ≡ db
    → u.finished ≡ false
    → Ends env settings req raw_body db (
        (build_payment env req amount_fen raw_body >>= λ p.
        insert_with_dedup p >>= after_insert env settings req order amount_fen)
          u)
unfolding Checked
payment-Ends env settings req raw_body db u order amount_fen found parsed equal h working f =
    >>=-ends (Ends env settings req raw_body db) (build_payment env req amount_fen raw_body) _ u
      (build_payment-Keeps env req amount_fen raw_body)
      (λ e v l. inl (thrown-Unchanged req db e v (l ∙ h)))
      (λ v l. inl (hang-Unchanged req db v (l ∙ h)))
      (λ p v builds l g.
        let (built, still) = build_payment-done env req amount_fen raw_body u builds in
        let same = built.same_amount in
        subst
          (λ a.
            Ends env settings req raw_body db
              ((insert_with_dedup p >>= after_insert env settings req order a) v))
          same
          (dedup-Ends env settings req raw_body db v order p
            (
              found,
              parsed ∙ ap some (sym same),
              same ∙ equal,
              subst (λ a. PaymentOf req a raw_body p) (sym same) built,
            )
            (l ∙ h) (still ∙ working) (g ∙ f)))

pub body-Ends :
    (env : Env) (settings : Settings) (req : PaymentCallbackReq) (raw_body : Bytes) (db : Db)
    (w : World)
    → w.committed ≡ db
    → w.working ≡ db
    → w.finished ≡ false
    → Ends env settings req raw_body db (body env settings req raw_body w)
unfolding body
body-Ends env settings req raw_body db w h working f =
    >>=-ends (Ends env settings req raw_body db) (checked_order req) _ w (checked_order-Keeps req)
      (λ e v l. inl (thrown-Unchanged req db e v (l ∙ h)))
      (λ v l. inl (hang-Unchanged req db v (l ∙ h)))
      (λ (order, amount_fen) u checks l g.
        let (found, parsed, equal, still) = checked_order-done req w checks in
        payment-Ends env settings req raw_body db u order amount_fen
          (subst (λ d. find_order req.order_no d ≡ some order) working found) parsed equal (l ∙ h)
          (still ∙ working) (g ∙ f))
