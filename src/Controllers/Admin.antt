-- ===== src/Controllers/Admin.antt =====
-- src/controllers/AdminController.cc
use trade_reconcile_system.Models.Result
use trade_reconcile_system.Base.{
  Bool, Option, String, [], false, if◌then◌else◌, none, not, some, true, ◌&&◌, ◌∷◌,
}
use trade_reconcile_system.Base.Bytes.{Bytes, codes}
use trade_reconcile_system.Base.Int.{pos, ℤ}
use trade_reconcile_system.Controllers.{
  Handled, HttpRequest, HttpResponse, Server, bad_request, new_http_json_response, raises, replies,
  respond, submits_task,
}
use trade_reconcile_system.Db.Monad.{Env, M, pure, ◌>>=◌}
use trade_reconcile_system.Models.ErrCode.{param_invalid}
use trade_reconcile_system.Models.Json.{Json}
use trade_reconcile_system.Models.Result.{Result, to_json}
use trade_reconcile_system.ReconcileService.{run}
use trade_reconcile_system.ReconcileService.Diffs.{handle_diff, list_diffs}
use trade_reconcile_system.RequestId.{request_id_of}

is_empty : Bytes → Bool
is_empty [] = true
is_empty (c ∷ s) = false

module _ {J : Type 0} (server : Server J) where
  -- `submitToPool`
  unfoldable pub submit_to_pool : {A : Type 0} → (A → M (Result Json)) → A → M HttpResponse
  unfolding new_http_json_response Result.to_json pure ◌>>=◌
  submit_to_pool work a =
      work a >>= λ result. pure (new_http_json_response server 200 (Result.to_json (λ j. j) result))

  text_member : J → Bytes → Bool
  text_member json key =
      server.reader.is_member json key && server.reader.is_string (server.reader.at json key)

  invalid : String → HttpRequest J → HttpResponse
  unfolding bad_request request_id_of
  invalid message request =
      bad_request server param_invalid message (request_id_of request.filtered)

  -- The bill date, when it is there and not empty; `asString` of a string does not throw, but its
  -- signature does not say so.
  dated : HttpRequest J → Option Bytes → Handled Bytes
  unfolding is_empty invalid
  dated request none = raises
  dated request (some bill_date) =
      if is_empty bill_date
      then replies (invalid "billDate(YYYY-MM-DD) 必填" request)
      else submits_task bill_date

  unfoldable pub handle_run_reconcile : HttpRequest J → Handled Bytes
  unfolding dated text_member invalid
  handle_run_reconcile request = elim request.json [
    | none ↦ replies (invalid "billDate(YYYY-MM-DD) 必填" request)
    | some json ↦
        if not (server.reader.takes_keys json)
        then raises
        else if text_member json (codes "billDate")
        then dated request (server.reader.as_string (server.reader.at json (codes "billDate")))
        else replies (invalid "billDate(YYYY-MM-DD) 必填" request)
  ]

  unfoldable pub handle_list_diffs : HttpRequest J → Handled Bytes
  unfolding is_empty invalid
  handle_list_diffs request =
      if is_empty (request.parameter (codes "batchNo"))
      then replies (invalid "batchNo 查询参数必填" request)
      else submits_task (request.parameter (codes "batchNo"))

  -- The action and the remark of a request.
  acted : Option Bytes → Option Bytes → Handled (Bytes × Bytes)
  acted (some action) (some remark) = submits_task (action, remark)
  acted _ _ = raises

  unfoldable pub handle_handle_diff : HttpRequest J → Handled (Bytes × Bytes)
  unfolding acted text_member invalid
  handle_handle_diff request = elim request.json [
    | none ↦ replies (invalid "action(verify/ignore) 必填" request)
    | some json ↦
        if not (server.reader.takes_keys json)
        then raises
        else if text_member json (codes "action")
        then acted (server.reader.as_string (server.reader.at json (codes "action"))) (
            if server.reader.is_member json (codes "remark")
            then server.reader.as_string (server.reader.at json (codes "remark"))
            else some [])
        else replies (invalid "action(verify/ignore) 必填" request)
  ]

  -- `runReconcile`
  unfoldable pub post_run_reconcile :
      Env → (Bytes → Option Bytes) → Bool → HttpRequest J → M HttpResponse
  unfolding respond submit_to_pool handle_run_reconcile request_id_of run
  post_run_reconcile env read_bill accepted request =
      respond server accepted (request_id_of request.filtered) (submit_to_pool (run env read_bill))
        (handle_run_reconcile request)

  -- `listDiffs`
  unfoldable pub get_diffs : Bool → HttpRequest J → M HttpResponse
  unfolding respond submit_to_pool handle_list_diffs request_id_of list_diffs
  get_diffs accepted request =
      respond server accepted (request_id_of request.filtered)
        (submit_to_pool (λ batch_no. list_diffs batch_no (pos 200))) (handle_list_diffs request)

  -- `handleDiff`, with the id of the path.
  unfoldable pub post_handle_diff : Env → ℤ → Bool → HttpRequest J → M HttpResponse
  unfolding respond submit_to_pool handle_handle_diff request_id_of handle_diff
  post_handle_diff env diff_id accepted request =
      respond server accepted (request_id_of request.filtered)
        (submit_to_pool
          (λ ((action, remark) : Bytes × Bytes). handle_diff env diff_id action remark))
        (handle_handle_diff request)
