-- ===== src/Controllers.antt =====
-- src/controllers/*.cc: what the handlers of the HTTP interface share. Drogon and jsoncpp are parameters:
-- how a parsed body is read, how a value is written, and which bytes the request holds.
use trade_reconcile_system.Models.Result
pub mod Orders
pub mod Payments
pub mod Admin
pub mod Simple
pub mod Mapped
pub mod Validates
pub mod Pays
pub mod Refines
pub mod Paid
pub mod Replay
pub mod Shutdown
pub mod Unanswered
mod Samples
mod Tests
mod PaidTests
mod AdminTests
use trade_reconcile_system.Base.{
  Bool, List, Option, String, [], false, if◌then◌else◌, none, some, true, ℕ, ◌∷◌,
}
use trade_reconcile_system.Base.Bytes.{Bytes}
use trade_reconcile_system.Base.Int.{ℤ}
use trade_reconcile_system.Db.Monad.{M, Outcome, done, hang, pure, std_exception, throw, thrown}
use trade_reconcile_system.Models.ErrCode.{ErrCode, internal_error}
use trade_reconcile_system.Models.Json.{Json, JsonReader, number}
use trade_reconcile_system.Models.Result.{Result, fail, to_json}
use trade_reconcile_system.PaymentService.{body}
use trade_reconcile_system.RequestId.{Request}

pub record HttpResponse : Type 0 where
  pub http_status : ℕ
  pub is_json : Bool
  pub response_text : Bytes

-- `write_http` is the writer of `newHttpJsonResponse`, `sha256` the digest of OpenSSL, and
-- `exception_response` what Drogon answers when an exception leaves a handler.
pub record Server (J : Type 0) : Type 0 where
  pub reader : JsonReader J
  pub write_http : Json → Bytes
  pub sha256 : Bytes → Bytes
  pub exception_response : HttpResponse

-- A request after the filter: `json` is `getJsonObject`, `parameter` is `getParameter`.
pub record HttpRequest (J : Type 0) : Type 0 where
  pub filtered : Request
  pub json : Option J
  pub request_body : Bytes
  pub parameter : Bytes → Bytes

-- What a handler does on the thread of the event loop: call back with a response, submit a task with
-- the request that it has built, or throw.
pub data Handled (A : Type 0) : Type 0 where
  replies : HttpResponse → Handled A
  submits_task : A → Handled A
  raises : Handled A

-- `some true` when all tests hold, tried in order up to the first that fails; `none` when one throws.
unfoldable pub all_hold : List (Option Bool) → Option Bool
all_hold [] = some true
all_hold (none ∷ tests) = none
all_hold (some false ∷ tests) = some false
all_hold (some true ∷ tests) = all_hold tests

-- `callback`, which a lambda's `callback = std::move(callback)` leaves empty.
pub data Callback : Type 0 where
  held moved_from : Callback

-- A call of an empty std::function throws std::bad_function_call.
unfoldable pub call : Callback → HttpResponse → M HttpResponse
unfolding pure throw
call held resp = pure resp
call moved_from resp = throw std_exception

module _ {J : Type 0} (server : Server J) where
  unfoldable pub new_http_json_response : ℕ → Json → HttpResponse
  new_http_json_response status body = record {
    http_status = status;
    is_json = true;
    response_text = server.write_http body;
  }

  unfoldable pub failure_response : ℕ → ErrCode → String → Bytes → HttpResponse
  unfolding new_http_json_response Result.to_json
  failure_response status code message request_id =
      new_http_json_response status
        (Result.to_json {A = ℤ} number (Result.fail code message request_id))

  -- `badRequest`
  unfoldable pub bad_request : ErrCode → String → Bytes → HttpResponse
  unfolding failure_response
  bad_request code message request_id = failure_response 400 code message request_id

  -- Drogon's exception handler, around what a handler does on the thread of the event loop. An exception
  -- of a task is lost in the pool's thread.
  response_sent : Outcome HttpResponse → Outcome HttpResponse
  response_sent (done resp) = done resp
  response_sent (thrown e) = done server.exception_response
  response_sent hang = hang

  unfoldable pub under_drogon : M HttpResponse → M HttpResponse
  unfolding response_sent
  under_drogon handler w = let (o, v) = handler w in (response_sent o, v)

  -- The end of a handler that submits: the task, when the pool has accepted it, or the response of the
  -- branch for a stopped pool, for which the callback has been moved into the lambda.
  unfoldable pub submit_task :
      {A : Type 0} → Bool → Bytes → (A → M HttpResponse) → A → M HttpResponse
  unfolding call failure_response under_drogon
  submit_task accepted request_id task a =
      if accepted
      then task a
      else under_drogon
          (call moved_from (failure_response 503 internal_error "服务正在关闭，请稍后重试" request_id))

  unfoldable pub respond :
      {A : Type 0} → Bool → Bytes → (A → M HttpResponse) → Handled A → M HttpResponse
  unfolding call submit_task throw under_drogon
  respond accepted request_id task (replies resp) = under_drogon (call held resp)
  respond accepted request_id task (submits_task a) = submit_task accepted request_id task a
  respond accepted request_id task raises = under_drogon (throw std_exception)
