-- ===== src/Controllers/Refines.antt =====
-- What a request to the order and payment interfaces does to the database, whatever the request, the
-- pool and the outcome.
use trade_reconcile_system.Models.Result
use trade_reconcile_system.OrderService.Atomic
use trade_reconcile_system.Base.{Bool, ap, false, inl, inr, refl, true, ◌∙◌, ◌≡◌, ◌⊎◌}
use trade_reconcile_system.Controllers.{
  Handled, HttpRequest, HttpResponse, Server, call, new_http_json_response, raises, replies,
  respond, submit_task, submits_task, under_drogon,
}
use trade_reconcile_system.Controllers.Mapped.{mapped-done, mapped-world}
use trade_reconcile_system.Controllers.Orders.{
  handle_create_order, order_response, order_task, post_order,
}
use trade_reconcile_system.Controllers.Validates.{OfBody, handle_create_order-OfBody}
use trade_reconcile_system.Db.Monad.{Env, Outcome, World, done, pure, throw}
use trade_reconcile_system.Models.Order.{CreateOrderReq, order_to_json}
use trade_reconcile_system.Models.Result.{Result, ok, to_json}
use trade_reconcile_system.OrderService.{create_order, executed, snapshot}
use trade_reconcile_system.OrderService.Atomic.{OrderPlaced, placed_db}
use trade_reconcile_system.OrderService.Refines.{create_order-Ends}
use trade_reconcile_system.RequestId.{request_id_of}

-- An accepted order at the HTTP interface: the request was well formed, the service placed its order,
-- and the response is the order's JSON with status 200.
pub record OrderPosted {J : Type 0} (server : Server J) (env : Env) (request : HttpRequest J)
    (w : World) (r : Outcome HttpResponse × World) : Type 0 where
  pub req : CreateOrderReq
  pub submitted : handle_create_order server request ≡ submits_task req
  pub well_formed : OfBody server request req
  pub placed : OrderPlaced env req w.committed (create_order env req w)
  pub answered :
      r.0
      ≡ done (
          new_http_json_response server 200
            (Result.to_json order_to_json (Result.ok placed.order req.request_id)))
  pub stored :
      r.1.committed
      ≡ placed_db placed.idempotent placed.order
          (snapshot env placed.order req.request_id)
          w.committed

module _ {J : Type 0} (server : Server J) (env : Env) (request : HttpRequest J) (w : World) where
  abbrev pub OrderEnds : Outcome HttpResponse × World → Type 0
  OrderEnds r = (r.1.committed ≡ w.committed) ⊎ OrderPosted server env request w r

  order_task-Ends :
      (req : CreateOrderReq)
      → handle_create_order server request ≡ submits_task req
      → Atomic.Ends env req w.committed (create_order env req w)
      → OrderEnds (order_task server env req w)
  unfolding order_task order_response
  order_task-Ends req formed (inl same) = inl (
      ap (λ (v : World). v.committed)
        (mapped-world (create_order env req) (order_response server) w)
      ∙ same.kept)
  order_task-Ends req formed (inr placed) = inr (record {
    req = req;
    submitted = formed;
    well_formed = handle_create_order-OfBody server request req formed;
    placed = placed;
    answered =
        mapped-done (create_order env req) (order_response server) w
          {a = executed (Result.ok placed.order req.request_id)} placed.told;
    stored =
        ap (λ (v : World). v.committed)
          (mapped-world (create_order env req) (order_response server) w)
        ∙ placed.stored;
  })

  submitted-Ends :
      (accepted : Bool) (req : CreateOrderReq)
      → handle_create_order server request ≡ submits_task req
      → OrderEnds (
          submit_task server accepted
            (request_id_of request.filtered)
            (order_task server env)
            req
            w)
  unfolding submit_task call throw under_drogon
  submitted-Ends true req formed = order_task-Ends req formed (create_order-Ends env req w)
  submitted-Ends false req formed = inl refl

  respond-Ends :
      (accepted : Bool) (h : Handled CreateOrderReq)
      → handle_create_order server request ≡ h
      → OrderEnds
          (respond server accepted (request_id_of request.filtered) (order_task server env) h w)
  unfolding respond call pure throw under_drogon
  respond-Ends accepted (replies resp) e = inl refl
  respond-Ends accepted (submits_task req) e = submitted-Ends accepted req e
  respond-Ends accepted raises e = inl refl

  -- However a POST of an order ends, the committed database is unchanged, or the body was well formed,
  -- the response has status 200 and the order's JSON, and the committed database is `placed_db` for it.
  pub post_order-Ends : (accepted : Bool) → OrderEnds (post_order server env accepted request w)
  unfolding post_order
  post_order-Ends accepted = respond-Ends accepted (handle_create_order server request) refl
