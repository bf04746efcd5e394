-- ===== src/PaymentService/Commits.antt =====
-- The ends of `handleCallback` behind the payment row: a replay, an order that is not payable, or
-- steps 5 to 7.
use mathlib.Core.Path.{subst}
use trade_reconcile_system.Base.{[], ap, false, inl, inr, sym, ◌++◌, ◌∙◌, ◌∷◌, ◌≡◌, ◌≢◌}
use trade_reconcile_system.Base.Bytes.{Bytes}
use trade_reconcile_system.Base.Calendar.{format_time}
use trade_reconcile_system.Base.Int.{pos}
use trade_reconcile_system.Channel.{Settings}
use trade_reconcile_system.Dao.Account.{find_account}
use trade_reconcile_system.Dao.LocalMessage.{message_row}
use trade_reconcile_system.Dao.Order.{get_by_order_no, pay_rows}
use trade_reconcile_system.Dao.Payment.{get_by_channel_trade_no, payment_row}
use trade_reconcile_system.Db.{Db}
use trade_reconcile_system.Db.Monad.{Env, M, World, commit, done, pure, ◌>>=◌, ◌>>◌}
use trade_reconcile_system.Db.Monad.Commit.{commit-cases}
use trade_reconcile_system.Db.Monad.Laws.{>>=-ends, Keeps, exec-Keeps, require-Keeps}
use trade_reconcile_system.Models.Json.{Json}
use trade_reconcile_system.Models.Order.{Order}
use trade_reconcile_system.Models.Payment.{Payment, PaymentCallbackReq}
use trade_reconcile_system.Models.Result.{Result}
use trade_reconcile_system.PaymentService.{
  build_message, charge, not_payable, nothing, outbox, paid_answer, replayed, settle,
}
use trade_reconcile_system.PaymentService.Atomic.{
  Accepted, Ends, Unchanged, charge-Keeps, hang-Unchanged, nothing-untold, outbox-Keeps, paid_db,
  thrown-Unchanged,
}
use trade_reconcile_system.PaymentService.Settle.{Charged, charge-done, outbox-done}

-- The tests that answer without a payment read the database, and return nothing else.
pure_end :
    {A : Type 0} (m : M A) (x : Result Json) (req : PaymentCallbackReq) (db : Db) (u : World)
    → Keeps m
    → u.committed ≡ db
    → done x ≢ done (paid_answer req)
    → Unchanged req db ((m >>= λ _. pure x) u)
unfolding pure
pure_end m x req db u k h differs =
    >>=-ends (Unchanged req db) m _ u k (λ e v l. thrown-Unchanged req db e v (l ∙ h))
      (λ v l. hang-Unchanged req db v (l ∙ h))
      (λ a v _ l _. record { kept = l ∙ h; untold = differs })

pub replayed-Unchanged :
    (req : PaymentCallbackReq) (db : Db) (u : World)
    → u.committed ≡ db
    → Unchanged req db (replayed req u)
unfolding replayed get_by_channel_trade_no ◌>>◌
replayed-Unchanged req db u h =
    >>=-ends (Unchanged req db) (get_by_channel_trade_no req.channel req.channel_trade_no) _ u
      (exec-Keeps _) (λ e v l. thrown-Unchanged req db e v (l ∙ h))
      (λ v l. hang-Unchanged req db v (l ∙ h))
      (λ a v _ l _.
        pure_end _ (nothing req) req db v (require-Keeps _ _) (l ∙ h) (nothing-untold req))

pub not_payable-Unchanged :
    (req : PaymentCallbackReq) (db : Db) (u : World)
    → u.committed ≡ db
    → Unchanged req db (not_payable req u)
unfolding not_payable get_by_order_no ◌>>◌
not_payable-Unchanged req db u h =
    >>=-ends (Unchanged req db) (get_by_order_no req.order_no) _ u (exec-Keeps _)
      (λ e v l. thrown-Unchanged req db e v (l ∙ h)) (λ v l. hang-Unchanged req db v (l ∙ h))
      (λ a v _ l _.
        pure_end _ (nothing req) req db v (require-Keeps _ _) (l ∙ h) (nothing-untold req))

-- The working database behind steps 3 and 4.
abbrev pub marked_db : Env → PaymentCallbackReq → Payment → Db → Db
marked_db env req p db = record db {
  payments = db.payments ++ payment_row p ∷ [];
  orders = pay_rows req.order_no (format_time (pos env.db_now)) db.orders;
}

commit-Ends :
    (env : Env) (settings : Settings) (req : PaymentCallbackReq) (raw_body : Bytes) (db d : Db)
    (u : World) (order : Order) (p : Payment) (id : Bytes)
    → Accepted req raw_body db order p
    → u.committed ≡ db
    → u.finished ≡ false
    → Charged req order p.amount_fen (marked_db env req p db) d
    → u.working ≡ record d {
      messages =
          d.messages ++ message_row env.db_now (build_message env settings req order id) ∷ [];
    }
    → Ends env settings req raw_body db ((commit >> pure (paid_answer req)) u)
unfolding find_account paid_db
commit-Ends env settings req raw_body db d u order p id accepted h f c after =
    elim (commit-cases (paid_answer req) u f) [
      | inl (kept, e, threw) ↦ inl (record { kept = kept ∙ h; untold = λ k. cc (sym threw ∙ k) })
      | inr (stored, told) ↦ inr (record {
        order = order;
        payment = p;
        accepted = accepted;
        account = c.account;
        account_found = c.found;
        enough = c.enough;
        after = c.after;
        read_back = c.read_back;
        message_id = id;
        told = told;
        stored =
            stored
            ∙ after
            ∙ ap
                (λ (d : Db). record d {
                  messages =
                      d.messages
                      ++ message_row env.db_now (build_message env settings req order id) ∷ [];
                })
                c.written;
      })
    ]

pub settle-Ends :
    (env : Env) (settings : Settings) (req : PaymentCallbackReq) (raw_body : Bytes) (db : Db)
    (u : World) (order : Order) (p : Payment)
    → Accepted req raw_body db order p
    → u.committed ≡ db
    → u.finished ≡ false
    → u.working ≡ marked_db env req p db
    → Ends env settings req raw_body db (settle env settings req order p.amount_fen u)
unfolding settle ◌>>◌
settle-Ends env settings req raw_body db u order p accepted h f working =
    >>=-ends (Ends env settings req raw_body db) (charge req order p.amount_fen) _ u
      (charge-Keeps req order p.amount_fen) (λ e v l. inl (thrown-Unchanged req db e v (l ∙ h)))
      (λ v l. inl (hang-Unchanged req db v (l ∙ h)))
      (λ _ v charges l g.
        >>=-ends (Ends env settings req raw_body db) (outbox env settings req order) _ v
          (outbox-Keeps env settings req order)
          (λ e x m. inl (thrown-Unchanged req db e x (m ∙ l ∙ h)))
          (λ x m. inl (hang-Unchanged req db x (m ∙ l ∙ h)))
          (λ _ x sends m n.
            let (id, queued) = outbox-done env settings req order v sends in
            commit-Ends env settings req raw_body db v.working x order p id accepted (m ∙ l ∙ h)
              (n ∙ g ∙ f)
              (subst (λ d. Charged req order p.amount_fen d v.working) working
                (charge-done req order p.amount_fen u charges))
              queued))
