-- ===== src/ReconcileService/Steps.antt =====
-- The steps of `run`, when they return.
use trade_reconcile_system.Base.{
  Bool, List, [], absent_then, ap, append-nil, append_assoc, count_where, false, find, guarded,
  length, length-append, ltb, none, refl, some_inj, sym, true, ℕ, ◌++◌, ◌+◌, ◌∙◌, ◌∷◌, ◌≡◌,
}
use trade_reconcile_system.Base.Bytes.{Bytes}
use trade_reconcile_system.Dao.Reconcile.{
  batch_clashes, batch_row, diff_row, has_batch_for_date, insert_batch, insert_batch_row,
  insert_diff, insert_diff_row, of_date,
}
use trade_reconcile_system.Db.{Db, ReconcileDiffRow}
use trade_reconcile_system.Db.Monad.{
  Outcome, World, autocommit, done, exec_auto, exec_auto_on, query,
}
use trade_reconcile_system.Db.Monad.Laws.{Keeps}
use trade_reconcile_system.Db.Monad.Returns.{>>-done, done-injective, exec-done, pure-done}
use trade_reconcile_system.Reconcile.{ReconcileBatch, ReconcileDiff}
use trade_reconcile_system.Reconcile.Classify.{ClassifiedDiff}
use trade_reconcile_system.ReconcileService.{insert_diffs, new_diff}

-- The rows that the loop of step 5 writes.
unfoldable pub diff_rows : Bytes → ℕ → List ClassifiedDiff → List ReconcileDiffRow
diff_rows batch_no id [] = []
diff_rows batch_no id (d ∷ rest) =
    diff_row id (new_diff batch_no d) ∷ diff_rows batch_no (id + 1) rest

insert_diff-done :
    (d : ReconcileDiff) (w : World) {u : Unit {0}} {w' : World}
    → insert_diff d w ≡ (done u, w')
    → w'.working
      ≡ record w.working { diffs = w.working.diffs ++ diff_row (length w.working.diffs + 1) d ∷ [] }
unfolding insert_diff insert_diff_row
insert_diff-done d w e =
    let (fits, same) = guarded _ (exec-done (insert_diff_row d) w e) in
    sym (ap (λ (q : Unit {0} × Db). q.1) (some_inj same))

pub insert_diffs-done :
    (batch_no : Bytes) (l : List ClassifiedDiff) (w : World) {u : Unit {0}} {w' : World}
    → insert_diffs batch_no l w ≡ (done u, w')
    → w'.working ≡ record w.working {
      diffs = w.working.diffs ++ diff_rows batch_no (length w.working.diffs + 1) l;
    }
unfolding insert_diffs diff_rows
insert_diffs-done batch_no [] w e =
    (pure-done tt w e).1
    ∙ ap (λ ds. record w.working { diffs = ds }) (sym (append-nil w.working.diffs))
insert_diffs-done batch_no (d ∷ rest) w {u} {w'} e =
    let (_, w1, e1, r1) =
      >>-done (insert_diff (new_diff batch_no d)) (insert_diffs batch_no rest) w e in
    let row = diff_row (length w.working.diffs + 1) (new_diff batch_no d) in
    let q1 = insert_diff-done (new_diff batch_no d) w e1 in
    let q2 = insert_diffs-done batch_no rest w1 r1 in
    let grown : length (w.working.diffs ++ row ∷ []) ≡ length w.working.diffs + 1 =
      length-append w.working.diffs (row ∷ []) in
    q2
    ∙ ap
        (λ (db : Db). record db {
          diffs = db.diffs ++ diff_rows batch_no (length db.diffs + 1) rest;
        })
        q1
    ∙ ap (λ ds. record w.working { diffs = ds })
        (ap (λ n. (w.working.diffs ++ row ∷ []) ++ diff_rows batch_no (n + 1) rest) grown
          ∙ append_assoc w.working.diffs (row ∷ [])
              (diff_rows batch_no (length w.working.diffs + 1 + 1) rest))

pub insert_batch-done :
    (b : ReconcileBatch) (w : World) {u : Unit {0}} {w' : World}
    → insert_batch b w ≡ (done u, w')
    → (find (batch_clashes (batch_row b)) w.working.batches ≡ none)
      × (w'.working ≡ record w.working { batches = w.working.batches ++ batch_row b ∷ [] })
unfolding insert_batch insert_batch_row
insert_batch-done b w e =
    let (fits, tried) = guarded _ (exec-done (insert_batch_row (batch_row b)) w e) in
    let (absent, same) =
      absent_then (find (batch_clashes (batch_row b)) w.working.batches) _ tried in
    (absent, sym (ap (λ (q : Unit {0} × Db). q.1) same))

-- A read on a connection of its own leaves the transaction alone.
pub auto_query-keeps :
    {A : Type 0} (f : Db → A) (l : List Bool) (w : World)
    → ((exec_auto_on (query f) l w).1.committed ≡ w.committed)
      × ((exec_auto_on (query f) l w).1.finished ≡ w.finished)
unfolding exec_auto_on autocommit
auto_query-keeps f [] w = (refl, refl)
auto_query-keeps f (true ∷ rest) w = (refl, refl)
auto_query-keeps f (false ∷ rest) w = (refl, refl)

auto_query-done :
    {A : Type 0} (f : Db → A) (l : List Bool) (w : World) {a : A} {w' : World}
    → exec_auto_on (query f) l w ≡ (done a, w')
    → (a ≡ f w.committed) × (w'.working ≡ w.working)
unfolding exec_auto_on autocommit
auto_query-done {A} f [] w e = (
  sym (done-injective (ap (λ (s : Outcome A × World). s.0) e)),
  sym (ap (λ (s : Outcome A × World). s.1.working) e),
)
auto_query-done {A} f (true ∷ rest) w e = cc (ap (λ (s : Outcome A × World). s.0) e)
auto_query-done {A} f (false ∷ rest) w e = (
  sym (done-injective (ap (λ (s : Outcome A × World). s.0) e)),
  sym (ap (λ (s : Outcome A × World). s.1.working) e),
)

pub has_batch_for_date-Keeps :
    (bill_date channel : Bytes) → Keeps (has_batch_for_date bill_date channel)
unfolding has_batch_for_date exec_auto
has_batch_for_date-Keeps bill_date channel = record {
  committed = λ w. (auto_query-keeps _ w.faults w).0;
  finished = λ w. (auto_query-keeps _ w.faults w).1;
}

pub has_batch_for_date-done :
    (bill_date channel : Bytes) (w : World) {b : Bool} {w' : World}
    → has_batch_for_date bill_date channel w ≡ (done b, w')
    → (b ≡ ltb 0 (count_where (of_date bill_date channel) w.committed.batches))
      × (w'.working ≡ w.working)
unfolding has_batch_for_date exec_auto
has_batch_for_date-done bill_date channel w e = auto_query-done _ w.faults w e
