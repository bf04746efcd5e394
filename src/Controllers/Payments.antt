-- ===== src/Controllers/Payments.antt =====
-- src/controllers/PaymentCallbackController.cc
use mathlib.Core.Option
use trade_reconcile_system.Models.Result
use trade_reconcile_system.Base.{
  Bool, Option, [], false, if◌then◌else◌, none, not, some, suc, true, ◌&&◌, ◌∷◌,
}
use trade_reconcile_system.Base.Bytes.{Bytes, codes}
use trade_reconcile_system.Base.Decimal.{to_string}
use trade_reconcile_system.Base.Int.{negsuc, pos, ℤ}
use trade_reconcile_system.Channel.{Settings}
use trade_reconcile_system.Controllers.{
  Handled, HttpRequest, HttpResponse, Server, all_hold, bad_request, new_http_json_response, raises,
  replies, respond, submits_task,
}
use trade_reconcile_system.Db.Monad.{Env, M, pure, ◌>>=◌}
use trade_reconcile_system.Models.ErrCode.{param_invalid}
use trade_reconcile_system.Models.Json.{Json}
use trade_reconcile_system.Models.Payment.{PaymentCallbackReq}
use trade_reconcile_system.Models.Result.{Result, to_json}
use trade_reconcile_system.PaymentService.{handle_callback}
use trade_reconcile_system.RequestId.{request_id_of}

-- std::to_string of a std::int64_t
unfoldable pub int64_text : ℤ → Bytes
int64_text (pos n) = to_string n
int64_text (negsuc n) = b'-' ∷ to_string (suc n)

unfoldable pub is_empty : Bytes → Bool
is_empty [] = true
is_empty (c ∷ s) = false

unfoldable pub build_payment_req :
    Bytes
    → Option Bytes
    → Option Bytes
    → Option Bytes
    → Option Bytes
    → Option ℤ
    → Option Bytes
    → Option PaymentCallbackReq
unfolding int64_text
build_payment_req request_id (some order_no) (some channel) (some channel_trade_no) (some amount)
      (some timestamp) (some sign) =
    some (record {
      request_id = request_id;
      order_no = order_no;
      channel = channel;
      channel_trade_no = channel_trade_no;
      amount = amount;
      timestamp = int64_text timestamp;
      sign = sign;
    })
build_payment_req request_id _ _ _ _ _ _ = none

module _ {J : Type 0} (server : Server J) where
  -- `hasNonEmptyString`
  unfoldable pub has_non_empty_string : J → Bytes → Option Bool
  unfolding is_empty
  has_non_empty_string json key =
      if server.reader.is_member json key && server.reader.is_string (server.reader.at json key)
      then Option.map (λ s. not (is_empty s)) (server.reader.as_string (server.reader.at json key))
      else some false

  unfoldable pub payment_tests : J → Option Bool
  unfolding all_hold has_non_empty_string
  payment_tests json = all_hold (
      has_non_empty_string json (codes "orderNo")
      ∷ has_non_empty_string json (codes "channel")
      ∷ has_non_empty_string json (codes "channelTradeNo")
      ∷ has_non_empty_string json (codes "amount")
      ∷ has_non_empty_string json (codes "sign")
      ∷ some (server.reader.is_member json (codes "timestamp"))
      ∷ some (server.reader.is_numeric (server.reader.at json (codes "timestamp")))
      ∷ [])

  unfoldable pub text_of : J → Bytes → Option Bytes
  text_of json key = server.reader.as_string (server.reader.at json key)

  unfoldable pub payment_fields : Bytes → J → Option PaymentCallbackReq
  unfolding build_payment_req text_of
  payment_fields request_id json =
      build_payment_req request_id (text_of json (codes "orderNo")) (text_of json (codes "channel"))
        (text_of json (codes "channelTradeNo")) (text_of json (codes "amount"))
        (server.reader.as_int64 (server.reader.at json (codes "timestamp")))
        (text_of json (codes "sign"))

  payment_param_invalid : Bytes → HttpResponse
  unfolding bad_request
  payment_param_invalid request_id =
      bad_request server param_invalid "orderNo/channel/channelTradeNo/amount/timestamp/sign 缺失或非法"
        request_id

  unfoldable pub tested_payment : HttpRequest J → J → Option Bool → Handled PaymentCallbackReq
  unfolding payment_fields payment_param_invalid request_id_of
  tested_payment request json none = raises
  tested_payment request json (some false) =
      replies (payment_param_invalid (request_id_of request.filtered))
  tested_payment request json (some true) =
      elim (payment_fields (request_id_of request.filtered) json) [
        | none ↦ raises
        | some req ↦ submits_task req
      ]

  -- `handleCallback` up to the submission.
  unfoldable pub handle_payment_callback : HttpRequest J → Handled PaymentCallbackReq
  unfolding tested_payment payment_tests payment_param_invalid request_id_of
  handle_payment_callback request = elim request.json [
    | none ↦ replies (payment_param_invalid (request_id_of request.filtered))
    | some json ↦
        if server.reader.takes_keys json
        then tested_payment request json (payment_tests json)
        else raises
  ]

  unfoldable pub json_result : Result Json → HttpResponse
  unfolding new_http_json_response Result.to_json
  json_result result = new_http_json_response server 200 (Result.to_json (λ j. j) result)

  unfoldable pub payment_task : Env → Settings → Bytes → PaymentCallbackReq → M HttpResponse
  unfolding handle_callback json_result pure ◌>>=◌
  payment_task env settings raw_body req =
      handle_callback env settings req raw_body >>= λ result. pure (json_result result)

  -- `handleCallback` of the controller, whole.
  unfoldable pub post_payment_callback : Env → Settings → Bool → HttpRequest J → M HttpResponse
  unfolding respond payment_task handle_payment_callback request_id_of
  post_payment_callback env settings accepted request =
      respond server accepted (request_id_of request.filtered)
        (payment_task env settings request.request_body) (handle_payment_callback request)
