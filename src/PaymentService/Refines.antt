-- ===== src/PaymentService/Refines.antt =====
-- `handleCallback` against its specification `paid_db`.
use trade_reconcile_system.Base.{either, inl, inr, not, refl, ◌∙◌, ◌≡◌}
use trade_reconcile_system.Base.Bytes.{Bytes, str_eq}
use trade_reconcile_system.Channel.{Settings, signed_by_channel, supported_channel}
use trade_reconcile_system.Db.{Db}
use trade_reconcile_system.Db.Monad.{
  Env, Exception, Outcome, World, biz, db_exception, done, hang, std_exception, thrown, transaction,
}
use trade_reconcile_system.Db.Monad.Commit.{transaction-ends}
use trade_reconcile_system.Models.ErrCode.{
  db_error, internal_error, sign_verify_failed, to_message, unsupported_channel,
}
use trade_reconcile_system.Models.Json.{Json}
use trade_reconcile_system.Models.Payment.{PaymentCallbackReq}
use trade_reconcile_system.Models.Result.{Result}
use trade_reconcile_system.PaymentService.{
  answer_of, body, callback_transaction, caught, handle_callback,
}
use trade_reconcile_system.PaymentService.Atomic.{
  Ends, Unchanged, failed-Unchanged, thrown-Unchanged,
}
use trade_reconcile_system.PaymentService.Body.{body-Ends}

along-Ends :
    (env : Env) (settings : Settings) (req : PaymentCallbackReq) (raw_body : Bytes) (db : Db)
    (o : Outcome (Result Json)) (u v : World)
    → v.committed ≡ u.committed
    → Ends env settings req raw_body db (o, u)
    → Ends env settings req raw_body db (o, v)
along-Ends env settings req raw_body db o u v k (inl e) =
    inl (record { kept = k ∙ e.kept; untold = e.untold })
along-Ends env settings req raw_body db o u v k (inr e) = inr (record {
  order = e.order;
  payment = e.payment;
  accepted = e.accepted;
  account = e.account;
  account_found = e.account_found;
  enough = e.enough;
  after = e.after;
  read_back = e.read_back;
  message_id = e.message_id;
  told = e.told;
  stored = k ∙ e.stored;
})

answer_of-Unchanged :
    (req : PaymentCallbackReq) (db : Db) (e : Exception) (u : World)
    → u.committed ≡ db
    → Unchanged req db (done (answer_of req e), u)
unfolding answer_of
answer_of-Unchanged req db (biz code message) u h = failed-Unchanged code message req db u h
answer_of-Unchanged req db db_exception u h =
    failed-Unchanged db_error (to_message db_error) req db u h
answer_of-Unchanged req db std_exception u h =
    failed-Unchanged internal_error (to_message internal_error) req db u h

caught-Ends :
    (env : Env) (settings : Settings) (req : PaymentCallbackReq) (raw_body : Bytes) (db : Db)
    (r : Outcome (Result Json) × World)
    → Ends env settings req raw_body db r
    → Ends env settings req raw_body db (caught req r)
unfolding caught
caught-Ends env settings req raw_body db (done o, u) e = e
caught-Ends env settings req raw_body db (thrown x, u) (inl e) =
    inl (answer_of-Unchanged req db x u e.kept)
caught-Ends env settings req raw_body db (thrown x, u) (inr e) = cc e.told
caught-Ends env settings req raw_body db (hang, u) e = e

-- However a call of `handleCallback` ends, one of two things holds. Either the committed database is
-- unchanged, and the answer does not confirm a payment of this call. Or the answer confirms it and
-- the committed database is `paid_db`, where the named order was pending with exactly the amount of
-- the callback, no payment had that channel trade number, and the payer's account held the amount.
pub handle_callback-Ends :
    (env : Env) (settings : Settings) (req : PaymentCallbackReq) (raw_body : Bytes) (w : World)
    → Ends env settings req raw_body w.committed (handle_callback env settings req raw_body w)
unfolding handle_callback callback_transaction
handle_callback-Ends env settings req raw_body w =
    let db = w.committed in
    either (Ends env settings req raw_body db) (not (str_eq req.channel supported_channel))
      (inl (failed-Unchanged unsupported_channel "不支持的支付渠道" req db w refl))
      (either (Ends env settings req raw_body db) (not (signed_by_channel settings req))
        (inl (failed-Unchanged sign_verify_failed "签名校验失败" req db w refl))
        (caught-Ends env settings req raw_body db (transaction (body env settings req raw_body) w) (
          transaction-ends (Ends env settings req raw_body db) (body env settings req raw_body) w
            (along-Ends env settings req raw_body db) (λ e u k. inl (thrown-Unchanged req db e u k))
            (λ u h working f. body-Ends env settings req raw_body db u h working f))))
