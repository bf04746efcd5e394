-- ===== src/Db/Monad/Commit.antt =====
-- `TransactionGuard`: what a commit and the end of a transaction do to the committed database.
use trade_reconcile_system.Base.{
  Bool, List, [], arith, false, if◌then◌else◌, inl, inr, refl, true, ◌∷◌, ◌≡◌, ◌⊎◌,
}
use trade_reconcile_system.Db.Monad.{
  Exception, M, Outcome, World, begin_transaction, commit, db_exception, done, exec, exec_on,
  guard_exit, in_transaction, pure, query, resume, std_exception, thrown, transaction, ◌>>=◌, ◌>>◌,
}

finish-cases :
    {A : Type 0} (x : A) (u : World) (fin : Bool) (l : List Bool)
    → fin ≡ false
    → let r =
        resume
          (λ _. pure x)
          (if fin
            then (thrown std_exception, u)
            else resume
                (λ db w'. (done tt, record w' { committed = db; finished = true }))
                (exec_on (query (λ db. db)) l u)) in
      ((r.1.committed ≡ u.committed) × (e : Exception) × (r.0 ≡ thrown e))
      ⊎ ((r.1.committed ≡ u.working) × (r.0 ≡ done x))
unfolding resume exec_on pure in_transaction
finish-cases x u true l h = cc
finish-cases x u false [] h = inr (refl, refl)
finish-cases x u false (true ∷ rest) h = inl (refl, db_exception, refl)
finish-cases x u false (false ∷ rest) h = inr (refl, refl)

-- A commit either fails and leaves the committed database alone, or makes it the working one.
pub commit-cases :
    {A : Type 0} (x : A) (u : World)
    → u.finished ≡ false
    → let r = (commit >> pure x) u in
      ((r.1.committed ≡ u.committed) × (e : Exception) × (r.0 ≡ thrown e))
      ⊎ ((r.1.committed ≡ u.working) × (r.0 ≡ done x))
unfolding commit ◌>>◌ ◌>>=◌ exec
commit-cases x u h = finish-cases x u u.finished u.faults h

pub guard_exit-committed : (w : World) → (guard_exit w).committed ≡ w.committed
unfolding guard_exit
guard_exit-committed w = ground arith

-- `beginTransaction` fails, or the rest runs on the committed database with the guard open.
begin-ends :
    {A : Type 0} (P : Outcome A × World → Type 0) (m : M A) (w : World) (l : List Bool)
    → w.finished ≡ false
    → ((e : Exception) (u : World) → u.committed ≡ w.committed → P (thrown e, u))
    → ((u : World)
        → u.committed ≡ w.committed
        → u.working ≡ w.working
        → u.finished ≡ false
        → P (m u))
    → P (resume (λ _. m) (exec_on (query (λ _. tt)) l w))
unfolding resume exec_on in_transaction
begin-ends P m w [] h on_throw on_body = on_body w refl refl h
begin-ends P m w (true ∷ rest) h on_throw on_body =
    on_throw db_exception (record w { faults = rest }) refl
begin-ends P m w (false ∷ rest) h on_throw on_body =
    on_body (record w { faults = rest }) refl refl h

-- What holds however the body of a transaction ends holds of the transaction.
pub transaction-ends :
    {A : Type 0} (P : Outcome A × World → Type 0) (m : M A) (w : World)
    → ((o : Outcome A) (u v : World) → v.committed ≡ u.committed → P (o, u) → P (o, v))
    → ((e : Exception) (u : World) → u.committed ≡ w.committed → P (thrown e, u))
    → ((u : World)
        → u.committed ≡ w.committed
        → u.working ≡ w.committed
        → u.finished ≡ false
        → P (m u))
    → P (transaction m w)
unfolding transaction begin_transaction ◌>>◌ ◌>>=◌ exec
transaction-ends P m w along on_throw on_body = along _ _ _ (guard_exit-committed _) (
    begin-ends P m (record w { working = w.committed; finished = false }) w.faults refl on_throw
      on_body)
