-- ===== src/Dao/Idempotent.antt =====
-- src/dao/IdempotentDao.cc
use trade_reconcile_system.Base.{
  Bool, List, Option, [], find, if◌then◌else◌, none, some, update_where, ℕ, ◌&&◌, ◌++◌, ◌==◌, ◌∷◌,
}
use trade_reconcile_system.Base.Bytes.{Bytes}
use trade_reconcile_system.Dao.{fits_id, fits_width}
use trade_reconcile_system.Db.{Db, IdempotentRow}
use trade_reconcile_system.Db.Monad.{M, Statement, exec, pure, query, ◌>>=◌}
use trade_reconcile_system.Db.Text.{sql_eq}
use trade_reconcile_system.Models.Account.{Idempotent}

pub data IdempotentOutcome : Type 0 where
  acquired processing : IdempotentOutcome
  cached_success : Bytes → IdempotentOutcome

abbrev pub has_request_id : Bytes → IdempotentRow → Bool
has_request_id request_id r = sql_eq r.request_id request_id

-- The row that the INSERT writes: status 0, no response yet.
unfoldable pub acquired_row : Idempotent → IdempotentRow
acquired_row record_ = record {
  request_id = record_.request_id;
  user_id = record_.user_id;
  api_path = record_.api_path;
  request_hash = record_.request_hash;
  response_body = [];
  status = 0;
  expire_time = record_.expire_time;
}

unfoldable pub fits_idempotent : Idempotent → Bool
fits_idempotent i =
    fits_width 64 i.request_id
    && fits_id i.user_id
    && fits_width 128 i.api_path
    && fits_width 64 i.request_hash

-- INSERT … ON DUPLICATE KEY UPDATE request_id = request_id: one affected row, or none.
unfoldable pub insert_idempotent : Idempotent → Statement ℕ
unfolding fits_idempotent
insert_idempotent i db =
    if fits_idempotent i
    then elim (find (has_request_id i.request_id) db.idempotents) [
      | none ↦ some (1, record db { idempotents = db.idempotents ++ acquired_row i ∷ [] })
      | some _ ↦ some (0, db)
    ]
    else none

unfoldable pub outcome_of : Option IdempotentRow → IdempotentOutcome
outcome_of none = processing
outcome_of (some row) = if row.status == 1 then cached_success row.response_body else processing

unfoldable pub find_idempotent : Bytes → Db → Option IdempotentRow
find_idempotent request_id db = find (has_request_id request_id) db.idempotents

unfoldable pub try_acquire : Idempotent → M IdempotentOutcome
unfolding insert_idempotent outcome_of find_idempotent
try_acquire i = do
  affected ← exec (insert_idempotent i)
  if affected == 1
      then pure acquired
      else (do row ← exec (query (find_idempotent i.request_id)); pure (outcome_of row))

-- The UPDATE of `markSuccess`.
unfoldable pub mark_rows : Bytes → Bytes → List IdempotentRow → List IdempotentRow
mark_rows request_id response_body =
    update_where (λ r. has_request_id request_id r && r.status == 0)
      (λ r. record r { status = 1; response_body = response_body })

unfoldable pub mark_success : Bytes → Bytes → M (Unit {0})
unfolding mark_rows
mark_success request_id response_body =
    exec
      λ db. some (tt, record db { idempotents = mark_rows request_id response_body db.idempotents })
