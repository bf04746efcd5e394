-- ===== src/OrderService/Keys.antt =====
-- Step 1 of `createOrder`: the idempotent key, and its row once the order is placed.
use mathlib.Core.Path.{ap₂, subst}
use trade_reconcile_system.Base.{
  Bool, Bool-cases, List, Option, [], ap, arith, false, find, guarded, if◌then◌else◌, inl, inr,
  none, refl, some, some_inj, sym, true, update_where, update_where-append, update_where-none, ℕ,
  ◌&&◌, ◌++◌, ◌==◌, ◌∙◌, ◌∷◌, ◌≡◌, ◌≢◌,
}
use trade_reconcile_system.Base.Bytes.{Bytes}
use trade_reconcile_system.Dao.Idempotent.{
  acquired, acquired_row, find_idempotent, has_request_id, insert_idempotent, mark_rows, outcome_of,
  try_acquire,
}
use trade_reconcile_system.Db.{Db, IdempotentRow}
use trade_reconcile_system.Db.Monad.{World, done, exec, pure, query, ◌>>=◌}
use trade_reconcile_system.Db.Monad.Returns.{>>=-done, exec-done, pure-done}
use trade_reconcile_system.Db.Text.{sql_eq_refl}
use trade_reconcile_system.Models.Account.{Idempotent}

-- The row of a request that is done.
unfoldable pub answered_row : Idempotent → Bytes → IdempotentRow
answered_row i response = record (acquired_row i) { status = 1; response_body = response }

acquires_first :
    {R : Type 0} (o : Option R) {x z : Db} (y : Db)
    → ◌≡◌ {A = Option (ℕ × Db)} (elim o [ none ↦ some (1, x) | some _ ↦ some (0, y) ]) (some (1, z))
    → (o ≡ none) × (z ≡ x)
acquires_first none y h = (refl, sym (ap (λ (q : ℕ × Db). q.1) (some_inj h)))
acquires_first (some r) y h = cc (ap (λ (q : ℕ × Db). q.0) (some_inj h))

insert_idempotent-acquires :
    (i : Idempotent) (db : Db) {db' : Db}
    → insert_idempotent i db ≡ some (1, db')
    → (find (has_request_id i.request_id) db.idempotents ≡ none)
      × (db' ≡ record db { idempotents = db.idempotents ++ acquired_row i ∷ [] })
unfolding insert_idempotent
insert_idempotent-acquires i db e =
    let (fits, tried) = guarded _ e in
    acquires_first (find (has_request_id i.request_id) db.idempotents) db tried

outcome_of-acquired : (r : Option IdempotentRow) → outcome_of r ≢ acquired
unfolding outcome_of
outcome_of-acquired none h = cc h
outcome_of-acquired (some row) h = elim (Bool-cases (row.status == 1)) [
  | inl hit ↦ ground arith
  | inr miss ↦ ground arith
]

keyed :
    (i : Idempotent) (b : Bool) (w : World) {w' : World}
    → (if b
          then pure acquired
          else (exec (query (find_idempotent i.request_id)) >>= λ row. pure (outcome_of row)))
        w
      ≡ (done acquired, w')
    → (b ≡ true) × (w'.working ≡ w.working)
keyed i true w e = (refl, (pure-done acquired w e).1)
keyed i false w e =
    let (row, u, _, r) = >>=-done _ _ w e in
    absurd (outcome_of-acquired row (pure-done (outcome_of row) u r).0)

is_one : {n : ℕ} → (n == 1) ≡ true → n ≡ 1
is_one h = ground arith

pub try_acquire-acquires :
    (i : Idempotent) (w : World) {w' : World}
    → try_acquire i w ≡ (done acquired, w')
    → (find (has_request_id i.request_id) w.working.idempotents ≡ none)
      × (w'.working
          ≡ record w.working { idempotents = w.working.idempotents ++ acquired_row i ∷ [] })
unfolding try_acquire
try_acquire-acquires i w {w'} e =
    let (affected, w1, e1, r1) = >>=-done _ _ w e in
    let (one, same) = keyed i (affected == 1) w1 r1 in
    let inserted = exec-done (insert_idempotent i) w e1 in
    let (absent, written) =
      insert_idempotent-acquires i w.working
        (subst (λ n. insert_idempotent i w.working ≡ some (n, w1.working)) (is_one one) inserted) in
    (absent, same ∙ written)

abbrev unanswered : Bytes → IdempotentRow → Bool
unanswered request_id r = has_request_id request_id r && r.status == 0

abbrev answered : Bytes → IdempotentRow → IdempotentRow
answered response r = record r { status = 1; response_body = response }

-- After the key is acquired, `markSuccess` turns its row, and no other, into the answer.
pub mark_rows-acquired :
    (i : Idempotent) (response : Bytes) (rows : List IdempotentRow)
    → find (has_request_id i.request_id) rows ≡ none
    → mark_rows i.request_id response (rows ++ acquired_row i ∷ [])
      ≡ rows ++ answered_row i response ∷ []
unfolding mark_rows acquired_row answered_row update_where
mark_rows-acquired i response rows h =
    update_where-append (unanswered i.request_id) (answered response) rows (acquired_row i ∷ [])
    ∙ ap₂ (λ xs ys. xs ++ ys)
        (update_where-none (has_request_id i.request_id) (unanswered i.request_id)
          (answered response) rows (λ r miss. ground arith) h)
        (rw (sql_eq_refl i.request_id))
