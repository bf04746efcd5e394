-- ===== src/OrderService/Body.antt =====
-- How the body of the transaction of `createOrder` ends.
use trade_reconcile_system.Models.Result
use mathlib.Core.Path.{subst}
use trade_reconcile_system.Base.{
  Option, String, [], ap, false, find, inl, inr, none, refl, sym, ◌++◌, ◌∙◌, ◌∷◌, ◌≡◌, ◌≢◌,
}
use trade_reconcile_system.Base.Bytes.{Bytes}
use trade_reconcile_system.Dao.Idempotent.{
  IdempotentOutcome, acquired, acquired_row, cached_success, has_request_id, mark_rows, processing,
  try_acquire,
}
use trade_reconcile_system.Dao.Order.{order_row}
use trade_reconcile_system.Dao.Product.{deduct_products, find_product}
use trade_reconcile_system.Db.{Db}
use trade_reconcile_system.Db.Monad.{Env, Outcome, World, commit, done, pure, ◌>>◌}
use trade_reconcile_system.Db.Monad.Commit.{commit-cases}
use trade_reconcile_system.Db.Monad.Laws.{>>=-ends}
use trade_reconcile_system.Models.Account.{Idempotent}
use trade_reconcile_system.Models.ErrCode.{ErrCode, duplicate_request, to_message}
use trade_reconcile_system.Models.Order.{CreateOrderReq, Order, Product}
use trade_reconcile_system.Models.Result.{Result, fail, ok}
use trade_reconcile_system.OrderService.{
  CreateOrderOutcome, body, build_idempotent_record, executed, failed, new_order, place, proceed,
  snapshot,
}
use trade_reconcile_system.OrderService.Atomic.{
  Ends, Unchanged, build_idempotent_record-Keeps, build_idempotent_record-done, hang-Unchanged,
  place-Keeps, placed_db, thrown-Unchanged, try_acquire-Keeps,
}
use trade_reconcile_system.OrderService.Keys.{
  answered_row, mark_rows-acquired, try_acquire-acquires,
}
use trade_reconcile_system.OrderService.Steps.{Placed, place-done}

abbrev pub payload_of : Outcome CreateOrderOutcome → Option Order
payload_of (done (executed r)) = r.payload
payload_of _ = none

pub failed-untold :
    (code : ErrCode) (message : String) (req : CreateOrderReq) (order : Order)
    → done (failed code message req) ≢ done (executed (Result.ok order req.request_id))
unfolding Result.ok Result.fail
failed-untold code message req order k = cc (ap payload_of k)

pub failed-Unchanged :
    (code : ErrCode) (message : String) (req : CreateOrderReq) (db : Db) (u : World)
    → u.committed ≡ db
    → Unchanged req db (done (failed code message req), u)
failed-Unchanged code message req db u h = record {
  kept = h;
  untold = failed-untold code message req;
}

-- The rows that `place` leaves are the specified ones.
placed_db-lem :
    (env : Env) (req : CreateOrderReq) (i : Idempotent) (db : Db) (order : Order) (p : Product)
    (order_no expire_time : Bytes)
    → i.request_id ≡ req.request_id
    → find (has_request_id req.request_id) db.idempotents ≡ none
    → order ≡ new_order req p order_no expire_time
    → record db {
      products = deduct_products req.product_id req.quantity db.products;
      orders = db.orders ++ order_row order ∷ [];
      idempotents =
          mark_rows req.request_id
            (snapshot env order req.request_id)
            (db.idempotents ++ acquired_row i ∷ []);
    }
      ≡ placed_db i order (snapshot env order req.request_id) db
unfolding placed_db new_order
placed_db-lem env req i db order p order_no expire_time same absent priced =
    let pid : order.product_id ≡ req.product_id = ap (λ (o : Order). o.product_id) priced in
    let amount : order.quantity ≡ req.quantity = ap (λ (o : Order). o.quantity) priced in
    let response = snapshot env order req.request_id in
    let marked =
      subst
        (λ t.
          find (has_request_id t) db.idempotents ≡ none
          → mark_rows t response (db.idempotents ++ acquired_row i ∷ [])
            ≡ db.idempotents ++ answered_row i response ∷ [])
        same (mark_rows-acquired i response db.idempotents) absent in
    (λ k. record db {
      products = deduct_products (sym pid k) (sym amount k) db.products;
      orders = db.orders ++ order_row order ∷ [];
      idempotents = marked k;
    })

-- The end of `createOrder` once `place` has returned, on a working database with the new key.
commit-Ends :
    (env : Env) (req : CreateOrderReq) (i : Idempotent) (db : Db) (u : World) (order : Order)
    → i.request_id ≡ req.request_id
    → find (has_request_id req.request_id) db.idempotents ≡ none
    → u.committed ≡ db
    → u.finished ≡ false
    → Placed env req
        (record db { idempotents = db.idempotents ++ acquired_row i ∷ [] })
        order
        u.working
    → Ends env req db ((commit >> pure (executed (Result.ok order req.request_id))) u)
unfolding find_product
commit-Ends env req i db u order same absent h f
      (p, order_no, expire_time, found, sale, enough, priced, after) =
    elim (commit-cases (executed (Result.ok order req.request_id)) u f) [
      | inl (kept, e, threw) ↦ inl (record { kept = kept ∙ h; untold = λ o k. cc (sym threw ∙ k) })
      | inr (stored, told) ↦ inr (record {
        idempotent = i;
        order = order;
        sold = record {
          same_request = same;
          first_time = absent;
          product = p;
          found = found;
          is_on_sale = sale;
          has_stock = enough;
          order_no = order_no;
          expire_time = expire_time;
          priced = priced;
        };
        told = told;
        stored =
            stored
            ∙ after
            ∙ placed_db-lem env req i db order p order_no expire_time same absent priced;
      })
    ]

proceed-Ends :
    (env : Env) (req : CreateOrderReq) (i : Idempotent) (db : Db) (u : World)
    (outcome : IdempotentOutcome)
    → i.request_id ≡ req.request_id
    → u.committed ≡ db
    → u.finished ≡ false
    → (outcome ≡ acquired
        → (find (has_request_id i.request_id) db.idempotents ≡ none)
          × (u.working ≡ record db { idempotents = db.idempotents ++ acquired_row i ∷ [] }))
    → Ends env req db (proceed env req outcome u)
unfolding proceed pure
proceed-Ends env req i db u (cached_success body) same h f key =
    inl (record { kept = h; untold = λ order k. cc k })
proceed-Ends env req i db u processing same h f key =
    inl (failed-Unchanged duplicate_request (to_message duplicate_request) req db u h)
proceed-Ends env req i db u acquired same h f key =
    let (absent, working) = key refl in
    >>=-ends (Ends env req db) (place env req) _ u (place-Keeps env req)
      (λ e v k. inl (thrown-Unchanged req db e v (k ∙ h)))
      (λ v k. inl (hang-Unchanged req db v (k ∙ h)))
      (λ order v returns k g.
        commit-Ends env req i db v order same
          (subst (λ t. find (has_request_id t) db.idempotents ≡ none) same absent) (k ∙ h) (g ∙ f)
          (subst (λ d. Placed env req d order v.working) working (place-done env req u returns)))

pub body-Ends :
    (env : Env) (req : CreateOrderReq) (db : Db) (w : World)
    → w.committed ≡ db
    → w.working ≡ db
    → w.finished ≡ false
    → Ends env req db (body env req w)
unfolding body
body-Ends env req db w h working f =
    >>=-ends (Ends env req db) (build_idempotent_record env req) _ w
      (build_idempotent_record-Keeps env req) (λ e v k. inl (thrown-Unchanged req db e v (k ∙ h)))
      (λ v k. inl (hang-Unchanged req db v (k ∙ h)))
      (λ i u built k g.
        let (same, still) = build_idempotent_record-done env req w built in
        >>=-ends (Ends env req db) (try_acquire i) _ u (try_acquire-Keeps i)
          (λ e v l. inl (thrown-Unchanged req db e v (l ∙ k ∙ h)))
          (λ v l. inl (hang-Unchanged req db v (l ∙ k ∙ h)))
          (λ outcome v tried l m.
            proceed-Ends env req i db v outcome same (l ∙ k ∙ h) (m ∙ g ∙ f) (λ e.
              subst
                (λ (d : Db).
                  (find (has_request_id i.request_id) d.idempotents ≡ none)
                  × (v.working ≡ record d { idempotents = d.idempotents ++ acquired_row i ∷ [] }))
                (still ∙ working)
                (try_acquire-acquires i u (subst (λ o. try_acquire i u ≡ (done o, v)) e tried)))))
