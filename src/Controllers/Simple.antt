-- ===== src/Controllers/Simple.antt =====
-- src/controllers/MockNotifyController.cc and src/controllers/HealthController.cc, which answer on the
-- thread of the event loop.
use trade_reconcile_system.Models.Result
use trade_reconcile_system.Base.{Bool, Option, false, if◌then◌else◌, none, some}
use trade_reconcile_system.Base.Bytes.{Bytes, codes}
use trade_reconcile_system.Base.Int.{pos}
use trade_reconcile_system.Controllers.{
  Handled, HttpRequest, HttpResponse, Server, failure_response, new_http_json_response, raises,
  replies,
}
use trade_reconcile_system.Models.ErrCode.{internal_error}
use trade_reconcile_system.Models.Json.{end, member, number, object, phrase}
use trade_reconcile_system.Models.Result.{Result, ok, to_json}
use trade_reconcile_system.RequestId.{request_id_of}

both : Option Bytes → Option Bool → Option (Bytes × Bool)
both (some s) (some b) = some (s, b)
both _ _ = none

module _ {J : Type 0} (server : Server J) where
  -- The order number, which is logged, and whether a failure is simulated; `none` where one of the
  -- two conversions throws.
  notify_fields : Option J → Option (Bytes × Bool)
  unfolding both
  notify_fields none = some (codes "unknown", false)
  notify_fields (some json) =
      if server.reader.takes_keys json
      then both
          (if server.reader.is_member json (codes "orderNo")
            then server.reader.as_string (server.reader.at json (codes "orderNo"))
            else some (codes "unknown"))
          (if server.reader.is_member json (codes "fail")
            then server.reader.as_bool (server.reader.at json (codes "fail"))
            else some false)
      else none

  notified : Bytes → Option (Bytes × Bool) → Handled (Unit {0})
  unfolding failure_response new_http_json_response Result.to_json
  notified request_id none = raises
  notified request_id (some (order_no, simulate_failure)) = replies (
      if simulate_failure
      then failure_response server 500 internal_error "mock merchant internal error" request_id
      else new_http_json_response server 200 (Result.to_json number (Result.ok (pos 1) request_id)))

  -- `MockNotifyController::notify`
  unfoldable pub mock_notify : HttpRequest J → Handled (Unit {0})
  unfolding notified notify_fields request_id_of
  mock_notify request = notified (request_id_of request.filtered) (notify_fields request.json)

  -- `HealthController::health`; the id is the header's, unchecked.
  unfoldable pub health : HttpRequest J → HttpResponse
  unfolding new_http_json_response Result.to_json
  health request = new_http_json_response server 200 (
      Result.to_json (λ j. j)
        (Result.ok (object (member "status" (phrase "up") end)) request.filtered.header))
