-- ===== src/Controllers/Tests.antt =====
-- POSTs of orders, and witnesses.
use trade_reconcile_system.Models.Result
use trade_reconcile_system.Base.{
  Option, [], ap, arith, count_where, false, find, if◌then◌else◌, inl, inr, map, none, refl, some,
  sym, true, update_where, ℕ, ◌∙◌, ◌∷◌, ◌≡◌, ◌⊎◌,
}
use trade_reconcile_system.Base.Bytes.{Bytes, codes, str_eq}
use trade_reconcile_system.Base.Calendar.{format_time}
use trade_reconcile_system.Base.Decimal.{digits, to_string}
use trade_reconcile_system.Base.Int.{pos, to_i64, ℤ, ◌*ℤ◌, ◌+ℤ◌, ◌-ℤ◌}
use trade_reconcile_system.Controllers.{
  HttpRequest, HttpResponse, all_hold, call, replies, respond, submit_task, submits_task,
  under_drogon,
}
use trade_reconcile_system.Controllers.Mapped.{mapped-done, mapped-world}
use trade_reconcile_system.Controllers.Orders.{
  build_order_req, handle_create_order, has_positive_int, order_fields, order_param_invalid,
  order_response, order_task, order_tests, post_order, sha256_hex, tested_order,
}
use trade_reconcile_system.Controllers.Refines.{OrderEnds, OrderPosted, post_order-Ends}
use trade_reconcile_system.Controllers.Replay.{accepted_post, post_order-again}
use trade_reconcile_system.Controllers.Samples.{
  Sample, exception_page, no_texts, request_with, sample_env, sample_members, sample_server,
  sample_start,
}
use trade_reconcile_system.Controllers.Shutdown.{post_order-stopped}
use trade_reconcile_system.Controllers.Validates.{handle_create_order-OfBody}
use trade_reconcile_system.Dao.Idempotent.{acquired_row, insert_idempotent, mark_rows, mark_success}
use trade_reconcile_system.Dao.Order.{order_row}
use trade_reconcile_system.Dao.Product.{deduct_products, deductible, find_product}
use trade_reconcile_system.Db.{Db}
use trade_reconcile_system.Db.Monad.{
  Outcome, World, done, exec, or_throw, pure, read_clock, require, throw,
}
use trade_reconcile_system.Db.Text.{cast_decimal, sql_eq}
use trade_reconcile_system.Ids.{id_text, layout, next_number}
use trade_reconcile_system.Models.Order.{CreateOrderReq, on_sale}
use trade_reconcile_system.Models.Result.{Result, fail, ok}
use trade_reconcile_system.Money.{fen_to_yuan_string, negate, yuan_text}
use trade_reconcile_system.OrderService.{create_order, executed, in_range, new_order, snapshot}
use trade_reconcile_system.OrderService.Atomic.{OrderPlaced}
use trade_reconcile_system.OrderService.Refines.{create_order-Ends}
use trade_reconcile_system.OrderService.Replay.{FitsKey}
use trade_reconcile_system.RequestId.{request_id_of}
use trade_reconcile_system.Sign.{to_hex}

abbrev order_ints : ℤ → Bytes → Option ℤ
order_ints quantity key =
    if str_eq key (codes "productId")
    then some (pos 7)
    else if str_eq key (codes "quantity")
    then some quantity
    else if str_eq key (codes "userId")
    then some (pos 1)
    else none

abbrev order_request : ℤ → HttpRequest Sample
order_request quantity = request_with (some (sample_members (order_ints quantity) no_texts))

abbrev order_req : CreateOrderReq
order_req = record {
  request_id = codes "0123456789abcdef";
  request_hash = codes "1f";
  user_id = 1;
  product_id = 7;
  quantity = pos 2;
}

submits_order : handle_create_order sample_server (order_request (pos 2)) ≡ submits_task order_req
unfolding handle_create_order tested_order order_tests all_hold has_positive_int order_fields
    build_order_req sha256_hex to_hex request_id_of str_eq
submits_order = refl

-- A quantity of zero, and a body that is no JSON.
rejects_order :
    (handle_create_order sample_server (order_request (pos 0))
      ≡ replies (order_param_invalid sample_server (codes "0123456789abcdef")))
    × (handle_create_order sample_server (request_with none)
        ≡ replies (order_param_invalid sample_server (codes "0123456789abcdef")))
unfolding handle_create_order tested_order order_tests all_hold has_positive_int request_id_of
    str_eq
rejects_order = (refl, refl)

post_order-Ends_example :
    OrderEnds sample_server sample_env
      (order_request (pos 2))
      sample_start
      (post_order sample_server sample_env true (order_request (pos 2)) sample_start)
post_order-Ends_example =
    post_order-Ends sample_server sample_env (order_request (pos 2)) sample_start true

-- What the service does for the request_with.
stock_falls :
    map {B = ℕ} (λ r. r.stock) (create_order sample_env order_req sample_start).1.committed.products
    ≡ 3 ∷ []
unfolding pure or_throw require new_order create_order find_product find mark_success
    deduct_products update_where count_where sql_eq str_eq on_sale layout next_number to_string
    digits format_time ◌+ℤ◌ ◌*ℤ◌ ◌-ℤ◌ to_i64 cast_decimal fen_to_yuan_string Result.ok Result.fail
    snapshot exec read_clock acquired_row order_row mark_rows insert_idempotent id_text yuan_text
    negate deductible
stock_falls = refl

order_placed :
    OrderPlaced sample_env order_req sample_start.committed
      (create_order sample_env order_req sample_start)
order_placed = elim (create_order-Ends sample_env order_req sample_start) [
  | inl same ↦
      cc (sym stock_falls ∙ ap (λ (db : Db). map {B = ℕ} (λ r. r.stock) db.products) same.kept)
  | inr placed ↦ placed
]

posts :
    post_order sample_server sample_env true (order_request (pos 2)) sample_start
    ≡ order_task sample_server sample_env order_req sample_start
posts =
    accepted_post sample_server sample_env (order_request (pos 2)) sample_start order_req
      submits_order

abbrev order_posted :
    OrderPosted sample_server sample_env
      (order_request (pos 2))
      sample_start
      (post_order sample_server sample_env true (order_request (pos 2)) sample_start)
unfolding order_task order_response
order_posted = record {
  req = order_req;
  submitted = submits_order;
  well_formed =
      handle_create_order-OfBody sample_server (order_request (pos 2)) order_req submits_order;
  placed = order_placed;
  answered =
      ap (λ (r : Outcome HttpResponse × World). r.0) posts
      ∙ mapped-done (create_order sample_env order_req) (order_response sample_server) sample_start
          {a = executed (Result.ok order_placed.order order_req.request_id)} order_placed.told;
  stored =
      ap (λ (r : Outcome HttpResponse × World). r.1.committed) posts
      ∙ ap (λ (v : World). v.committed)
          (mapped-world (create_order sample_env order_req) (order_response sample_server)
            sample_start)
      ∙ order_placed.stored;
}

quantity_in_range : in_range (pos 2) ≡ true
unfolding in_range
quantity_in_range = refl

key_of_req : FitsKey order_req
key_of_req = (omega arith, omega arith, omega arith)

abbrev posted_world : World
posted_world = (post_order sample_server sample_env true (order_request (pos 2)) sample_start).1

post_order-again_example :
    let (o, w) =
      post_order sample_server sample_env true
        (order_request (pos 2))
        (record posted_world { faults = [] }) in
    (o ≡ (post_order sample_server sample_env true (order_request (pos 2)) sample_start).0)
    × (w.committed ≡ posted_world.committed)
unfolding order_posted
post_order-again_example =
    post_order-again sample_server sample_env sample_env (order_request (pos 2)) sample_start
      posted_world true order_posted (λ j. refl) refl quantity_in_range key_of_req

post_order-stopped_example :
    (resp : HttpResponse) × (post_order sample_server sample_env false
        (order_request (pos 2))
        sample_start
      ≡ (done resp, sample_start))
    × ((resp.http_status ≡ 400) ⊎ (resp ≡ exception_page))
post_order-stopped_example =
    post_order-stopped sample_server sample_env (order_request (pos 2)) sample_start

-- The well-formed order gets Drogon's page.
stopped_page :
    (post_order sample_server sample_env false (order_request (pos 2)) sample_start).0
    ≡ done exception_page
unfolding post_order respond submit_task under_drogon call throw handle_create_order tested_order
    order_tests all_hold has_positive_int order_fields build_order_req request_id_of str_eq
stopped_page = refl
