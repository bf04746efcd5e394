-- ===== src/ReconcileService/Diffs.antt =====
-- src/services/ReconcileService.cc: `listDiffs` and `handleDiff`.
use trade_reconcile_system.Models.Result
use trade_reconcile_system.Base.{List, Option, [], if◌then◌else◌, length, none, some, ◌==◌, ◌∷◌}
use trade_reconcile_system.Base.Bytes.{Bytes, codes, str_eq}
use trade_reconcile_system.Base.Int.{negsuc, pos, ℤ}
use trade_reconcile_system.Dao.Reconcile.{get_diff_by_id, mark_handled, select_diffs}
use trade_reconcile_system.Db.Monad.{
  Env, M, Outcome, World, db_exception, done, hang, pure, thrown, ◌>>=◌,
}
use trade_reconcile_system.Models.ErrCode.{
  db_error, param_invalid, reconcile_batch_not_found, reconcile_diff_already_handled, to_message,
}
use trade_reconcile_system.Models.Json.{Items, Json, array, end, item, member, nil, number, object}
use trade_reconcile_system.Models.Result.{Result, ok}
use trade_reconcile_system.Reconcile.{
  HandleStatus, ReconcileDiff, diff_to_json, handle_status_code, ignored, verified,
}
use trade_reconcile_system.ReconcileService.{failed}

json_items : List ReconcileDiff → Items
unfolding diff_to_json
json_items [] = nil
json_items (d ∷ diffs) = item (diff_to_json d) (json_items diffs)

listed_answer : Bytes → List ReconcileDiff → Result Json
unfolding json_items
listed_answer batch_no diffs =
    Result.ok
      (object (
        member "diffs" (array (json_items diffs))
          (member "count" (number (pos (length diffs))) end)))
      batch_no

-- Its `catch` clause takes database errors only, and `select_diffs` throws no others.
unfoldable pub listed_or_failed :
    Bytes → Outcome (List ReconcileDiff) × World → Outcome (Result Json) × World
unfolding listed_answer
listed_or_failed batch_no (done diffs, w) = (done (listed_answer batch_no diffs), w)
listed_or_failed batch_no (thrown db_exception, w) =
    (done (failed db_error (to_message db_error) batch_no), w)
listed_or_failed batch_no (thrown e, w) = (thrown e, w)
listed_or_failed batch_no (hang, w) = (hang, w)

unfoldable pub list_diffs : Bytes → ℤ → M (Result Json)
unfolding listed_or_failed select_diffs
list_diffs batch_no limit w = listed_or_failed batch_no (select_diffs batch_no (negsuc 0) limit w)

unfoldable pub action_status : Bytes → Option HandleStatus
action_status action =
    if str_eq action (codes "verify")
    then some verified
    else if str_eq action (codes "ignore")
    then some ignored
    else none

unfoldable pub handled_answer : ℤ → HandleStatus → Result Json
handled_answer diff_id status =
    Result.ok
      (object (
        member "diffId" (number diff_id)
          (member "handleStatus" (number (pos (handle_status_code status))) end)))
      []

unfoldable pub mark_found : Env → ℤ → Bytes → HandleStatus → Option ReconcileDiff → M (Result Json)
unfolding mark_handled handled_answer
mark_found env diff_id remark status none = pure (failed reconcile_batch_not_found "差异记录不存在" [])
mark_found env diff_id remark status (some existing) = do
  affected ← mark_handled env diff_id (handle_status_code status) remark
  pure (
      if affected == 0
      then failed reconcile_diff_already_handled "差异已处理过" []
      else handled_answer diff_id status)

unfoldable pub handle_known : Env → ℤ → Bytes → HandleStatus → M (Result Json)
unfolding get_diff_by_id mark_found
handle_known env diff_id remark status =
    get_diff_by_id diff_id >>= mark_found env diff_id remark status

unfoldable pub handle_diff : Env → ℤ → Bytes → Bytes → M (Result Json)
unfolding action_status handle_known pure
handle_diff env diff_id action remark = elim (action_status action) [
  | none ↦ pure (failed param_invalid "action 必须是 verify 或 ignore" [])
  | some status ↦ handle_known env diff_id remark status
]
