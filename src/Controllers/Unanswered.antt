-- ===== src/Controllers/Unanswered.antt =====
-- src/controllers/AdminController.cc with src/services/ReconcileService.cc: a database error in the two
-- requests about differences.
use trade_reconcile_system.Models.Result
use trade_reconcile_system.Base.{Bool, List, ap, refl, some, true, ◌∷◌, ◌≡◌}
use trade_reconcile_system.Base.Bytes.{Bytes}
use trade_reconcile_system.Base.Int.{negsuc, pos, ℤ}
use trade_reconcile_system.Controllers.{
  HttpRequest, HttpResponse, Server, new_http_json_response, respond, submit_task, submits_task,
}
use trade_reconcile_system.Controllers.Admin.{
  get_diffs, handle_handle_diff, handle_list_diffs, post_handle_diff, submit_to_pool,
}
use trade_reconcile_system.Dao.Reconcile.{get_diff_by_id, limited, select_diffs}
use trade_reconcile_system.Db.Monad.{
  Env, Statement, World, db_exception, done, exec_auto, exec_auto_on, pure, resume, thrown, ◌>>=◌,
}
use trade_reconcile_system.Models.ErrCode.{db_error, to_message}
use trade_reconcile_system.Models.Result.{Result, to_json}
use trade_reconcile_system.Reconcile.{HandleStatus}
use trade_reconcile_system.ReconcileService.{failed}
use trade_reconcile_system.ReconcileService.Diffs.{
  action_status, handle_diff, handle_known, list_diffs, listed_or_failed, mark_found,
}

module _ {J : Type 0} (server : Server J) (w : World) (rest : List Bool)
    (fails : w.faults ≡ true ∷ rest) where
  -- The world after a statement that fails.
  abbrev pub after_fault : World
  after_fault = record w { faults = rest }

  -- The response of `listDiffs` to a database error.
  abbrev pub list_failure : Bytes → HttpResponse
  list_failure batch_no =
      new_http_json_response server 200
        (Result.to_json (λ j. j) (failed db_error (to_message db_error) batch_no))

  exec_auto-fails :
      {A : Type 0} (f : Statement A) → exec_auto f w ≡ (thrown db_exception, after_fault)
  unfolding exec_auto exec_auto_on
  exec_auto-fails f = rw fails refl

  list_diffs-fails :
      (batch_no : Bytes) (limit : ℤ)
      → list_diffs batch_no limit w
        ≡ (done (failed db_error (to_message db_error) batch_no), after_fault)
  unfolding list_diffs select_diffs listed_or_failed
  list_diffs-fails batch_no limit = rw (exec_auto-fails (limited batch_no (negsuc 0) limit)) refl

  handle_diff-fails :
      (env : Env) (diff_id : ℤ) (action remark : Bytes) {status : HandleStatus}
      → action_status action ≡ some status
      → handle_diff env diff_id action remark w ≡ (thrown db_exception, after_fault)
  unfolding handle_diff handle_known get_diff_by_id ◌>>=◌ resume
  handle_diff-fails env diff_id action remark {status} known =
      rw (known, handle_diff)
        (ap (resume (mark_found env diff_id remark status)) (exec_auto-fails _))

  -- When the next statement fails in the database, an accepted request that lists the differences of a
  -- batch is answered with status 200 and the code of a database error, while an accepted request that
  -- handles a difference, with a known action, gets no response: the exception leaves its task. Neither
  -- changes the committed database.
  pub post_handle_diff-unanswered :
      (env : Env) (diff_id : ℤ) (listing handling : HttpRequest J) (batch_no action remark : Bytes)
      {status : HandleStatus}
      → handle_list_diffs server listing ≡ submits_task batch_no
      → handle_handle_diff server handling ≡ submits_task (action, remark)
      → action_status action ≡ some status
      → (get_diffs server true listing w ≡ (done (list_failure batch_no), after_fault))
        × (post_handle_diff server env diff_id true handling w ≡ (thrown db_exception, after_fault))
  unfolding get_diffs post_handle_diff respond submit_task submit_to_pool ◌>>=◌ resume pure
  post_handle_diff-unanswered env diff_id listing handling batch_no action remark lists handles
        known =
      (
        rw (lists, list_diffs-fails batch_no (pos 200)) refl,
        rw (handles, handle_diff-fails env diff_id action remark known) refl,
      )
