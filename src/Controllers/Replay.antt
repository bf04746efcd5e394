-- ===== src/Controllers/Replay.antt =====
-- A POST of an order that is sent again: the filter's id, the controller and the service together.
use trade_reconcile_system.Models.Result
use trade_reconcile_system.Base.{Bool, [], ap, refl, sym, true, ◌∙◌, ◌≡◌}
use trade_reconcile_system.Base.Bytes.{Bytes}
use trade_reconcile_system.Controllers.{
  HttpRequest, HttpResponse, Server, new_http_json_response, respond, submit_task, submits_task,
}
use trade_reconcile_system.Controllers.Mapped.{mapped-done, mapped-world}
use trade_reconcile_system.Controllers.Orders.{
  handle_create_order, order_response, order_task, post_order,
}
use trade_reconcile_system.Controllers.Refines.{OrderPosted}
use trade_reconcile_system.Db.Monad.{Env, Outcome, World, done}
use trade_reconcile_system.Models.Json.{Json}
use trade_reconcile_system.Models.Order.{CreateOrderReq, Order, order_to_json}
use trade_reconcile_system.Models.Result.{Result, ok, to_json}
use trade_reconcile_system.OrderService.{cached, create_order, in_range, snapshot}
use trade_reconcile_system.OrderService.Replay.{FitsKey, create_order-again}

pub accepted_post :
    {J : Type 0} (server : Server J) (env : Env) (request : HttpRequest J) (w : World)
    (req : CreateOrderReq)
    → handle_create_order server request ≡ submits_task req
    → post_order server env true request w ≡ order_task server env req w
unfolding post_order respond submit_task
accepted_post server env request w req e = rw e refl

cached_response :
    {J : Type 0} (server : Server J) (env : Env) (order : Order) (request_id : Bytes)
    → ((j : Json) → server.write_http j ≡ env.write_compact j)
    → order_response server (cached (snapshot env order request_id))
      ≡ new_http_json_response server 200
          (Result.to_json order_to_json (Result.ok order request_id))
unfolding order_response new_http_json_response snapshot
cached_response server env order request_id writes = rw (writes _) refl

-- A POST that has placed an order, sent again with the same id and body: as long as the committed
-- database is the one that the first left, no statement fails, the pool takes the task, the quantity
-- is in range, the key fits its columns and Drogon writes JSON as the service's compact writer does,
-- the second response is the first one, byte for byte, and nothing is placed.
pub post_order-again :
    {J : Type 0} (server : Server J) (env later : Env) (request : HttpRequest J) (w w2 : World)
    (accepted : Bool)
    → (posted : OrderPosted server env request w (post_order server env accepted request w))
    → ((j : Json) → server.write_http j ≡ env.write_compact j)
    → w2.committed ≡ (post_order server env accepted request w).1.committed
    → in_range posted.req.quantity ≡ true
    → FitsKey posted.req
    → let (o, w') = post_order server later true request (record w2 { faults = [] }) in
      (o ≡ (post_order server env accepted request w).0) × (w'.committed ≡ w2.committed)
unfolding order_task
post_order-again server env later request w w2 accepted posted writes same ranged fits =
    let req = posted.req in
    let order = posted.placed.order in
    let v : World = record w2 { faults = [] } in
    let again =
      create_order-again env later req w w2 posted.placed
        (same ∙ posted.stored ∙ sym posted.placed.stored) ranged fits in
    let post = accepted_post server later request v req posted.submitted in
    let told =
      mapped-done (create_order later req) (order_response server) v
        {a = cached (snapshot env order req.request_id)} again.0 in
    (
      ap (λ (r : Outcome HttpResponse × World). r.0) post
          ∙ told
          ∙ ap done (cached_response server env order req.request_id writes)
          ∙ sym posted.answered,
      ap (λ (r : Outcome HttpResponse × World). r.1.committed) post
          ∙ ap (λ (u : World). u.committed)
              (mapped-world (create_order later req) (order_response server) v)
          ∙ again.1,
    )
