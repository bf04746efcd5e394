-- ===== src/ReconcileService/Refines.antt =====
-- `run` against its specification `reconciled_db`.
use mathlib.Core.Path.{subst}
use trade_reconcile_system.Base.{
  Bool, List, [], ap, arith, count_where, false, inl, inr, length, ltb, not, sym, true, ℕ, ◌++◌,
  ◌+◌, ◌∙◌, ◌∷◌, ◌≡◌,
}
use trade_reconcile_system.Base.Bytes.{Bytes}
use trade_reconcile_system.Dao.Reconcile.{batch_row, has_batch_for_date, insert_batch, of_date}
use trade_reconcile_system.Db.{Db}
use trade_reconcile_system.Db.Monad.{
  Env, Exception, Outcome, World, biz, db_exception, done, exec, hang, next_id, query, require,
  std_exception, thrown, transaction, ◌>>◌,
}
use trade_reconcile_system.Db.Monad.Commit.{commit-cases, transaction-ends}
use trade_reconcile_system.Db.Monad.Laws.{>>=-ends, exec-Keeps, next_id-Keeps, require-Keeps}
use trade_reconcile_system.Db.Monad.Returns.{next_id-done, query-done, require-done}
use trade_reconcile_system.Models.ErrCode.{db_error, internal_error, to_message}
use trade_reconcile_system.Models.Json.{Json}
use trade_reconcile_system.Models.Result.{Result}
use trade_reconcile_system.Reconcile.{ReconcileSideRow}
use trade_reconcile_system.Reconcile.Classify.{classify_reconcile_diffs}
use trade_reconcile_system.ReconcileService.{
  answer_of, batch_answer, body, caught, channel_name, compare_rows, insert_diffs, local_rows,
  new_batch, run_rows, store_batch,
}
use trade_reconcile_system.ReconcileService.Atomic.{
  Ends, Unchanged, batch_for, failed-Unchanged, hang-Unchanged, insert_batch-Keeps,
  insert_diffs-Keeps, reconciled_db, thrown-Unchanged,
}
use trade_reconcile_system.ReconcileService.Steps.{
  diff_rows, has_batch_for_date-Keeps, has_batch_for_date-done, insert_batch-done,
  insert_diffs-done,
}

store_batch-Ends :
    (bill_date batch_no : Bytes) (channel_rows : List ReconcileSideRow) (db : Db) (u : World)
    → count_where (of_date bill_date channel_name) db.batches ≡ 0
    → u.committed ≡ db
    → u.working ≡ db
    → u.finished ≡ false
    → Ends bill_date channel_rows db (
        store_batch
          (batch_for batch_no bill_date channel_rows db)
          (classify_reconcile_diffs (local_rows bill_date db) channel_rows)
          u)
unfolding store_batch ◌>>◌ reconciled_db new_batch
store_batch-Ends bill_date batch_no channel_rows db u first h working f =
    let batch = batch_for batch_no bill_date channel_rows db in
    let classified = classify_reconcile_diffs (local_rows bill_date db) channel_rows in
    >>=-ends (Ends bill_date channel_rows db) (insert_batch batch) _ u (insert_batch-Keeps batch)
      (λ e v l. inl (thrown-Unchanged db e v (l ∙ h))) (λ v l. inl (hang-Unchanged db v (l ∙ h)))
      (λ _ v inserts l g.
        >>=-ends (Ends bill_date channel_rows db) (insert_diffs batch.batch_no classified) _ v
          (insert_diffs-Keeps batch.batch_no classified)
          (λ e x m. inl (thrown-Unchanged db e x (m ∙ l ∙ h)))
          (λ x m. inl (hang-Unchanged db x (m ∙ l ∙ h)))
          (λ _ x writes m n.
            let batched : v.working ≡ record db { batches = db.batches ++ batch_row batch ∷ [] } =
              (insert_batch-done batch u inserts).1
              ∙ ap (λ (d : Db). record d { batches = d.batches ++ batch_row batch ∷ [] }) working in
            elim (commit-cases (batch_answer batch) x (n ∙ g ∙ f)) [
              | inl (kept, e, threw) ↦
                  inl (record { kept = kept ∙ m ∙ l ∙ h; untold = λ b k. cc (sym threw ∙ k) })
              | inr (stored, told) ↦ inr (record {
                batch_no = batch_no;
                first_batch = first;
                told = told;
                stored =
                    stored
                    ∙ insert_diffs-done batch_no classified v writes
                    ∙ ap
                        (λ (d : Db). record d {
                          diffs = d.diffs ++ diff_rows batch_no (length d.diffs + 1) classified;
                        })
                        batched;
              })
            ]))

none_before : {n : ℕ} {b : Bool} → b ≡ ltb 0 n → not b ≡ true → n ≡ 0
none_before h k = ground arith

-- Steps 3 to 5.
compare-Ends :
    (env : Env) (bill_date : Bytes) (channel_rows : List ReconcileSideRow) (db : Db) (w : World)
    → count_where (of_date bill_date channel_name) db.batches ≡ 0
    → w.committed ≡ db
    → w.working ≡ db
    → w.finished ≡ false
    → Ends bill_date channel_rows db (compare_rows env bill_date channel_rows w)
unfolding compare_rows
compare-Ends env bill_date channel_rows db w first h working f =
    >>=-ends (Ends bill_date channel_rows db) (exec (query (local_rows bill_date))) _ w
      (exec-Keeps (query (local_rows bill_date))) (λ e v l. inl (thrown-Unchanged db e v (l ∙ h)))
      (λ v l. inl (hang-Unchanged db v (l ∙ h)))
      (λ local v reads l g.
        let got = query-done (local_rows bill_date) w reads in
        >>=-ends (Ends bill_date channel_rows db) (next_id env) _ v (next_id-Keeps env)
          (λ e x m. inl (thrown-Unchanged db e x (m ∙ l ∙ h)))
          (λ x m. inl (hang-Unchanged db x (m ∙ l ∙ h)))
          (λ batch_no x issues m n.
            let same : local ≡ local_rows bill_date db =
              got.0 ∙ ap (local_rows bill_date) working in
            subst
              (λ rows. Ends bill_date channel_rows db (
                store_batch
                  (new_batch batch_no bill_date rows channel_rows
                    (classify_reconcile_diffs rows channel_rows))
                  (classify_reconcile_diffs rows channel_rows) x))
              (sym same)
              (store_batch-Ends bill_date batch_no channel_rows db x first (m ∙ l ∙ h)
                (next_id-done env v issues ∙ got.1 ∙ working) (n ∙ g ∙ f))))

body-Ends :
    (env : Env) (bill_date : Bytes) (channel_rows : List ReconcileSideRow) (db : Db) (w : World)
    → w.committed ≡ db
    → w.working ≡ db
    → w.finished ≡ false
    → Ends bill_date channel_rows db (body env bill_date channel_rows w)
unfolding body ◌>>◌
body-Ends env bill_date channel_rows db w h working f =
    >>=-ends (Ends bill_date channel_rows db) (has_batch_for_date bill_date channel_name) _ w
      (has_batch_for_date-Keeps bill_date channel_name)
      (λ e v l. inl (thrown-Unchanged db e v (l ∙ h))) (λ v l. inl (hang-Unchanged db v (l ∙ h)))
      (λ exists v asks l g.
        let asked = has_batch_for_date-done bill_date channel_name w asks in
        >>=-ends (Ends bill_date channel_rows db) (require (not exists) _) _ v (require-Keeps _ _)
          (λ e x m. inl (thrown-Unchanged db e x (m ∙ l ∙ h)))
          (λ x m. inl (hang-Unchanged db x (m ∙ l ∙ h)))
          (λ _ x passes m n.
            let passed = require-done (not exists) _ v passes in
            compare-Ends env bill_date channel_rows db x
              (subst (λ (d : Db). count_where (of_date bill_date channel_name) d.batches ≡ 0) h
                (none_before asked.0 passed.0))
              (m ∙ l ∙ h) (passed.1 ∙ asked.1 ∙ working) (n ∙ g ∙ f)))

along-Ends :
    (bill_date : Bytes) (channel_rows : List ReconcileSideRow) (db : Db) (o : Outcome (Result Json))
    (u v : World)
    → v.committed ≡ u.committed
    → Ends bill_date channel_rows db (o, u)
    → Ends bill_date channel_rows db (o, v)
along-Ends bill_date channel_rows db o u v k (inl e) =
    inl (record { kept = k ∙ e.kept; untold = e.untold })
along-Ends bill_date channel_rows db o u v k (inr e) = inr (record {
  batch_no = e.batch_no;
  first_batch = e.first_batch;
  told = e.told;
  stored = k ∙ e.stored;
})

answer_of-Unchanged :
    (bill_date : Bytes) (db : Db) (e : Exception) (u : World)
    → u.committed ≡ db
    → Unchanged db (done (answer_of bill_date e), u)
unfolding answer_of
answer_of-Unchanged bill_date db (biz code message) u h =
    failed-Unchanged code message bill_date db u h
answer_of-Unchanged bill_date db db_exception u h =
    failed-Unchanged db_error (to_message db_error) bill_date db u h
answer_of-Unchanged bill_date db std_exception u h =
    failed-Unchanged internal_error (to_message internal_error) bill_date db u h

caught-Ends :
    (bill_date : Bytes) (channel_rows : List ReconcileSideRow) (db : Db)
    (r : Outcome (Result Json) × World)
    → Ends bill_date channel_rows db r
    → Ends bill_date channel_rows db (caught bill_date r)
unfolding caught
caught-Ends bill_date channel_rows db (done o, u) e = e
caught-Ends bill_date channel_rows db (thrown x, u) (inl e) =
    inl (answer_of-Unchanged bill_date db x u e.kept)
caught-Ends bill_date channel_rows db (thrown x, u) (inr e) = cc e.told
caught-Ends bill_date channel_rows db (hang, u) e = e

-- However a reconciliation of a bill's rows ends, one of two things holds. Either the committed
-- database is unchanged and no batch is reported. Or the day had no batch of the channel, the
-- answer reports the new batch, and the committed database is `reconciled_db`: the batch with the
-- counts and totals of both sides, and one row for each difference of the classification.
pub run_rows-Ends :
    (env : Env) (bill_date : Bytes) (channel_rows : List ReconcileSideRow) (w : World)
    → Ends bill_date channel_rows w.committed (run_rows env bill_date channel_rows w)
unfolding run_rows
run_rows-Ends env bill_date channel_rows w =
    caught-Ends bill_date channel_rows w.committed (transaction (body env bill_date channel_rows) w)
      (transaction-ends (Ends bill_date channel_rows w.committed) (body env bill_date channel_rows)
        w (along-Ends bill_date channel_rows w.committed)
        (λ e u k. inl (thrown-Unchanged w.committed e u k))
        (λ u h working f. body-Ends env bill_date channel_rows w.committed u h working f))
