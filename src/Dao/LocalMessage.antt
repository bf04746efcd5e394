-- ===== src/Dao/LocalMessage.antt =====
-- src/dao/LocalMessageDao.cc
use trade_reconcile_system.Base.{
  Bool, List, [], find, if◌then◌else◌, leb, map, none, some, suc, update_where, zero, ℕ, ◌&&◌, ◌++◌,
  ◌+◌, ◌==◌, ◌∷◌,
}
use trade_reconcile_system.Base.Bytes.{Bytes}
use trade_reconcile_system.Dao.{fits_width}
use trade_reconcile_system.Db.{LocalMessageRow}
use trade_reconcile_system.Db.Monad.{Env, M, Statement, exec, exec_auto, query}
use trade_reconcile_system.Db.Text.{sql_eq}
use trade_reconcile_system.Models.Payment.{LocalMessage, pending}

-- The row that the INSERT writes: pending, due at the database's time.
unfoldable pub message_row : ℕ → LocalMessage → LocalMessageRow
message_row now m = record {
  message_id = m.message_id;
  biz_type = m.biz_type;
  biz_id = m.biz_id;
  exchange = m.exchange;
  routing_key = m.routing_key;
  payload = m.payload;
  status = 0;
  retry_count = 0;
  next_retry_time = now;
}

unfoldable pub fits_message : LocalMessageRow → Bool
fits_message r =
    fits_width 64 r.message_id
    && fits_width 32 r.biz_type
    && fits_width 64 r.biz_id
    && fits_width 128 r.exchange
    && fits_width 128 r.routing_key
    && fits_width 65535 r.payload

abbrev pub has_message_id : Bytes → LocalMessageRow → Bool
has_message_id message_id r = sql_eq r.message_id message_id

unfoldable pub insert_message_row : LocalMessageRow → Statement (Unit {0})
unfolding fits_message
insert_message_row r db =
    if fits_message r
    then elim (find (has_message_id r.message_id) db.messages) [
      | none ↦ some (tt, record db { messages = db.messages ++ r ∷ [] })
      | some _ ↦ none
    ]
    else none

unfoldable pub insert_message : Env → LocalMessage → M (Unit {0})
unfolding insert_message_row message_row
insert_message env m = exec (insert_message_row (message_row env.db_now m))

-- The WHERE clause of `scanPending`, its LIMIT, and what it reads of a row.
unfoldable pub is_due : ℕ → LocalMessageRow → Bool
is_due now r = r.status == 0 && leb r.next_retry_time now

message_of_row : LocalMessageRow → LocalMessage
message_of_row r = record {
  message_id = r.message_id;
  biz_type = r.biz_type;
  biz_id = r.biz_id;
  exchange = r.exchange;
  routing_key = r.routing_key;
  payload = r.payload;
  status = pending;
  retry_count = r.retry_count;
  next_retry_time = [];
}

unfoldable pub due_rows : ℕ → ℕ → List LocalMessageRow → List LocalMessageRow
due_rows now limit [] = []
due_rows now zero (r ∷ rows) = []
due_rows now (suc limit) (r ∷ rows) =
    let rest = due_rows now limit rows in
    let same = due_rows now (suc limit) rows in if is_due now r then r ∷ rest else same

unfoldable pub scan_pending : Env → ℕ → M (List LocalMessage)
unfolding due_rows message_of_row
scan_pending env limit =
    exec_auto (query (λ db. map message_of_row (due_rows env.db_now limit db.messages)))

unfoldable pub update_messages :
    (LocalMessageRow → Bool) → (LocalMessageRow → LocalMessageRow) → M (Unit {0})
update_messages p f =
    exec_auto λ db. some (tt, record db { messages = update_where p f db.messages })

unfoldable pub mark_acked : Bytes → M (Unit {0})
unfolding update_messages
mark_acked message_id =
    update_messages (λ r. has_message_id message_id r && r.status == 0)
      (λ r. record r { status = 2 })

unfoldable pub mark_failed : Env → Bytes → ℕ → ℕ → M (Unit {0})
unfolding update_messages
mark_failed env message_id retry_count backoff_seconds =
    update_messages (has_message_id message_id)
      (λ r. record r { retry_count = retry_count; next_retry_time = env.db_now + backoff_seconds })

unfoldable pub mark_give_up : Bytes → M (Unit {0})
unfolding update_messages
mark_give_up message_id = update_messages (has_message_id message_id) (λ r. record r { status = 3 })
