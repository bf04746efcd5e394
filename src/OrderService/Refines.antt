-- ===== src/OrderService/Refines.antt =====
-- `createOrder` against its specification `placed_db`.
use trade_reconcile_system.Base.{either, inl, inr, refl, ◌∙◌, ◌≡◌}
use trade_reconcile_system.Db.{Db}
use trade_reconcile_system.Db.Monad.{
  Env, Exception, Outcome, World, biz, db_exception, done, hang, std_exception, thrown, transaction,
}
use trade_reconcile_system.Db.Monad.Commit.{transaction-ends}
use trade_reconcile_system.Models.ErrCode.{db_error, internal_error, param_invalid, to_message}
use trade_reconcile_system.Models.Order.{CreateOrderReq}
use trade_reconcile_system.OrderService.{
  CreateOrderOutcome, answer_of, body, caught, create_order, in_range,
}
use trade_reconcile_system.OrderService.Atomic.{Ends, Unchanged, thrown-Unchanged}
use trade_reconcile_system.OrderService.Body.{body-Ends, failed-Unchanged}

along-Ends :
    (env : Env) (req : CreateOrderReq) (db : Db) (o : Outcome CreateOrderOutcome) (u v : World)
    → v.committed ≡ u.committed
    → Ends env req db (o, u)
    → Ends env req db (o, v)
along-Ends env req db o u v k (inl e) = inl (record { kept = k ∙ e.kept; untold = e.untold })
along-Ends env req db o u v k (inr e) = inr (record {
  idempotent = e.idempotent;
  order = e.order;
  sold = e.sold;
  told = e.told;
  stored = k ∙ e.stored;
})

answer_of-Unchanged :
    (req : CreateOrderReq) (db : Db) (e : Exception) (u : World)
    → u.committed ≡ db
    → Unchanged req db (done (answer_of req e), u)
unfolding answer_of
answer_of-Unchanged req db (biz code message) u h = failed-Unchanged code message req db u h
answer_of-Unchanged req db db_exception u h =
    failed-Unchanged db_error (to_message db_error) req db u h
answer_of-Unchanged req db std_exception u h =
    failed-Unchanged internal_error (to_message internal_error) req db u h

caught-Ends :
    (env : Env) (req : CreateOrderReq) (db : Db) (r : Outcome CreateOrderOutcome × World)
    → Ends env req db r
    → Ends env req db (caught req r)
unfolding caught
caught-Ends env req db (done o, u) e = e
caught-Ends env req db (thrown x, u) (inl e) = inl (answer_of-Unchanged req db x u e.kept)
caught-Ends env req db (thrown x, u) (inr e) = cc e.told
caught-Ends env req db (hang, u) e = e

-- However a call of `createOrder` ends, one of two things holds. Either the committed database is
-- unchanged and the answer is not an order; or the answer is an order and the committed database is
-- `placed_db`: the stock taken, the order and the answered idempotent record appended, where the
-- request had no record before, and the product was on sale with stock for the quantity.
pub create_order-Ends :
    (env : Env) (req : CreateOrderReq) (w : World)
    → Ends env req w.committed (create_order env req w)
unfolding create_order
create_order-Ends env req w =
    either (Ends env req w.committed) (in_range req.quantity)
      (caught-Ends env req w.committed (transaction (body env req) w) (
        transaction-ends (Ends env req w.committed) (body env req) w
          (along-Ends env req w.committed) (λ e u k. inl (thrown-Unchanged req w.committed e u k))
          (λ u h working f. body-Ends env req w.committed u h working f)))
      (inl (failed-Unchanged param_invalid "购买数量必须在 1~999 之间" req w.committed w refl))
