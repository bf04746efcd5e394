-- ===== src/Controllers/Orders.antt =====
-- src/controllers/OrderController.cc
use mathlib.Core.Option
use trade_reconcile_system.Models.Result
use trade_reconcile_system.Base.{
  Bool, Option, [], ap, false, if◌then◌else◌, none, some, some_inj, true, ◌&&◌, ◌∷◌, ◌≡◌,
}
use trade_reconcile_system.Base.Bytes.{Bytes, codes}
use trade_reconcile_system.Base.Int.{ltb_ℤ, pos, pos_part, ℤ}
use trade_reconcile_system.Controllers.{
  Handled, HttpRequest, HttpResponse, Server, all_hold, bad_request, new_http_json_response, raises,
  replies, respond, submits_task,
}
use trade_reconcile_system.Db.Monad.{Env, M, pure, ◌>>=◌}
use trade_reconcile_system.Models.ErrCode.{param_invalid}
use trade_reconcile_system.Models.Order.{CreateOrderReq, order_to_json}
use trade_reconcile_system.Models.Result.{Result, to_json}
use trade_reconcile_system.OrderService.{CreateOrderOutcome, cached, create_order, executed}
use trade_reconcile_system.RequestId.{request_id_of}
use trade_reconcile_system.Sign.{to_hex}

abbrev pub all_fields : Option ℤ → Option ℤ → Option ℤ → Option (ℤ × ℤ × ℤ)
all_fields (some product_id) (some quantity) (some user_id) = some (product_id, quantity, user_id)
all_fields _ _ _ = none

pub all_fields-some :
    (a b c : Option ℤ) {p q u : ℤ}
    → all_fields a b c ≡ some (p, q, u)
    → (a ≡ some p) × (b ≡ some q) × (c ≡ some u)
all_fields-some none b c h = cc
all_fields-some (some x) none c h = cc
all_fields-some (some x) (some y) none h = cc
all_fields-some (some x) (some y) (some z) h =
    let e = some_inj h in
    (
      ap (λ (t : ℤ × ℤ × ℤ). some t.0) e,
      ap (λ (t : ℤ × ℤ × ℤ). some t.1) e,
      ap (λ (t : ℤ × ℤ × ℤ). some t.2) e,
    )

module _ {J : Type 0} (server : Server J) where
  -- `hasPositiveInt`
  unfoldable pub has_positive_int : J → Bytes → Option Bool
  has_positive_int json key =
      if server.reader.is_member json key && server.reader.is_numeric (server.reader.at json key)
      then Option.map (λ n. ltb_ℤ (pos 0) n) (server.reader.as_int64 (server.reader.at json key))
      else some false

  unfoldable pub sha256_hex : Bytes → Bytes
  unfolding to_hex
  sha256_hex data_ = to_hex (server.sha256 data_)

  -- The three fields, which the tests have found to be there.
  unfoldable pub order_fields : J → Option (ℤ × ℤ × ℤ)
  order_fields json =
      all_fields (server.reader.as_int64 (server.reader.at json (codes "productId")))
        (server.reader.as_int64 (server.reader.at json (codes "quantity")))
        (server.reader.as_int64 (server.reader.at json (codes "userId")))

  -- The ids are positive, so that the cast to std::uint64_t keeps them.
  unfoldable pub build_order_req : Bytes → Bytes → Option (ℤ × ℤ × ℤ) → Handled CreateOrderReq
  unfolding sha256_hex
  build_order_req request_id request_body none = raises
  build_order_req request_id request_body (some (product_id, quantity, user_id)) =
      submits_task (record {
        request_id = request_id;
        request_hash = sha256_hex request_body;
        user_id = pos_part user_id;
        product_id = pos_part product_id;
        quantity = quantity;
      })

  unfoldable pub order_tests : J → Option Bool
  unfolding all_hold has_positive_int
  order_tests json = all_hold (
      has_positive_int json (codes "productId")
      ∷ has_positive_int json (codes "quantity")
      ∷ has_positive_int json (codes "userId")
      ∷ [])

  unfoldable pub order_param_invalid : Bytes → HttpResponse
  unfolding bad_request
  order_param_invalid request_id =
      bad_request server param_invalid "productId/quantity/userId 必须为正整数" request_id

  unfoldable pub tested_order : HttpRequest J → J → Option Bool → Handled CreateOrderReq
  unfolding build_order_req order_fields order_param_invalid request_id_of
  tested_order request json none = raises
  tested_order request json (some false) =
      replies (order_param_invalid (request_id_of request.filtered))
  tested_order request json (some true) =
      build_order_req (request_id_of request.filtered) request.request_body (order_fields json)

  -- `createOrder` up to the submission.
  unfoldable pub handle_create_order : HttpRequest J → Handled CreateOrderReq
  unfolding tested_order order_tests order_param_invalid request_id_of
  handle_create_order request = elim request.json [
    | none ↦ replies (order_param_invalid (request_id_of request.filtered))
    | some json ↦
        if server.reader.takes_keys json
        then tested_order request json (order_tests json)
        else raises
  ]

  -- The response of the lambda: the stored text as it is, or the result's JSON.
  unfoldable pub order_response : CreateOrderOutcome → HttpResponse
  unfolding new_http_json_response Result.to_json order_to_json
  order_response (cached response_text) = record {
    http_status = 200;
    is_json = true;
    response_text = response_text;
  }
  order_response (executed result) =
      new_http_json_response server 200 (Result.to_json order_to_json result)

  unfoldable pub order_task : Env → CreateOrderReq → M HttpResponse
  unfolding create_order order_response pure ◌>>=◌
  order_task env req = create_order env req >>= λ outcome. pure (order_response outcome)

  -- `createOrder` of the controller, whole.
  unfoldable pub post_order : Env → Bool → HttpRequest J → M HttpResponse
  unfolding respond order_task handle_create_order request_id_of
  post_order env accepted request =
      respond server accepted (request_id_of request.filtered) (order_task env)
        (handle_create_order request)
