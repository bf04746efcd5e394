-- ===== src/Controllers/Shutdown.antt =====
-- A request that meets a pool which has been stopped.
use trade_reconcile_system.Base.{
  Bool, Option, Option-cases, ap, false, if◌then◌else◌, inl, inr, none, refl, some, sym, true, ◌∙◌,
  ◌≡◌, ◌≢◌, ◌⊎◌,
}
use trade_reconcile_system.Base.Bytes.{Bytes}
use trade_reconcile_system.Base.Int.{ℤ}
use trade_reconcile_system.Controllers.{
  Handled, HttpRequest, HttpResponse, Server, bad_request, call, failure_response,
  new_http_json_response, raises, replies, respond, submit_task, submits_task, under_drogon,
}
use trade_reconcile_system.Controllers.Orders.{
  build_order_req, handle_create_order, order_param_invalid, order_task, order_tests, post_order,
  tested_order,
}
use trade_reconcile_system.Db.Monad.{Env, World, done, pure, throw}
use trade_reconcile_system.Models.Order.{CreateOrderReq}
use trade_reconcile_system.RequestId.{request_id_of}

module _ {J : Type 0} (server : Server J) (env : Env) (request : HttpRequest J) (w : World) where
  build-no_reply :
      (request_id request_body : Bytes) (fields : Option (ℤ × ℤ × ℤ)) (resp : HttpResponse)
      → build_order_req server request_id request_body fields ≢ replies resp
  unfolding build_order_req
  build-no_reply request_id request_body none resp h = cc
  build-no_reply request_id request_body (some fields) resp h = cc

  invalid_status : (request_id : Bytes) → (order_param_invalid server request_id).http_status ≡ 400
  unfolding order_param_invalid bad_request failure_response new_http_json_response
  invalid_status request_id = refl

  replies-injective :
      {a b : HttpResponse} → ◌≡◌ {A = Handled CreateOrderReq} (replies a) (replies b) → a ≡ b
  replies-injective h = cc

  guarded_reply :
      (b : Bool) {h : Handled CreateOrderReq} {resp : HttpResponse}
      → (if b then h else raises) ≡ replies resp
      → h ≡ replies resp
  guarded_reply true e = e
  guarded_reply false e = cc

  tested-status :
      (test : Option Bool) (json : J) (resp : HttpResponse)
      → tested_order server request json test ≡ replies resp
      → resp.http_status ≡ 400
  unfolding tested_order
  tested-status none json resp h = cc
  tested-status (some false) json resp h =
      ap (λ (r : HttpResponse). r.http_status) (sym (replies-injective h))
      ∙ invalid_status (request_id_of request.filtered)
  tested-status (some true) json resp h = absurd (build-no_reply _ _ _ resp h)

  handled-status :
      (resp : HttpResponse)
      → handle_create_order server request ≡ replies resp
      → resp.http_status ≡ 400
  unfolding handle_create_order
  handled-status resp h = elim (Option-cases request.json) [
    | inl missing ↦
        ap (λ (r : HttpResponse). r.http_status) (sym (replies-injective (rw missing at h)))
        ∙ invalid_status (request_id_of request.filtered)
    | inr (json, parsed) ↦
        tested-status (order_tests server json) json resp
          (guarded_reply (server.reader.takes_keys json) (rw (parsed, handle_create_order) at h))
  ]

  -- The responses to what the handler may have done, without a task.
  respond-stopped :
      (h : Handled CreateOrderReq)
      → handle_create_order server request ≡ h
      → (resp : HttpResponse) × (respond server false
            (request_id_of request.filtered)
            (order_task server env)
            h
            w
          ≡ (done resp, w))
        × ((resp.http_status ≡ 400) ⊎ (resp ≡ server.exception_response))
  unfolding respond submit_task under_drogon call pure throw
  respond-stopped (replies r) e = (r, refl, inl (handled-status r e))
  respond-stopped (submits_task req) e = (server.exception_response, refl, inr refl)
  respond-stopped raises e = (server.exception_response, refl, inr refl)

  -- With a stopped pool every POST of an order leaves the world alone and is answered, with status 400 or
  -- by Drogon's response to an exception: the response of the branch for a stopped pool, with status 503,
  -- is never sent, since the callback has been moved away before.
  pub post_order-stopped :
      (resp : HttpResponse) × (post_order server env false request w ≡ (done resp, w))
      × ((resp.http_status ≡ 400) ⊎ (resp ≡ server.exception_response))
  unfolding post_order
  post_order-stopped = respond-stopped (handle_create_order server request) refl
