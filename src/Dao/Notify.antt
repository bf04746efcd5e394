-- ===== src/Dao/Notify.antt =====
-- src/dao/NotifyDao.cc
use trade_reconcile_system.Base.{
  Bool, [], find, if◌then◌else◌, none, some, update_where, ℕ, ◌&&◌, ◌++◌, ◌==◌, ◌||◌, ◌∷◌,
}
use trade_reconcile_system.Base.Bytes.{Bytes}
use trade_reconcile_system.Dao.{fits_width}
use trade_reconcile_system.Db.{NotifyRow}
use trade_reconcile_system.Db.Monad.{Env, M, Statement, exec_auto, next_id, pure, ◌>>=◌}
use trade_reconcile_system.Db.Text.{sql_eq}

-- `NotifyInsertResult`: a new record with its number, or a duplicate.
pub data NotifyInsertOutcome : Type 0 where
  recorded : Bytes → NotifyInsertOutcome
  repeated : NotifyInsertOutcome

unfoldable pub notify_row : Bytes → Bytes → Bytes → Bytes → NotifyRow
notify_row notify_no message_id order_no target_url = record {
  notify_no = notify_no;
  order_no = order_no;
  target_url = target_url;
  response_body = [];
  status = 0;
  retry_count = 0;
  message_id = message_id;
}

unfoldable pub fits_notify : NotifyRow → Bool
fits_notify r =
    fits_width 32 r.notify_no
    && fits_width 32 r.order_no
    && fits_width 255 r.target_url
    && fits_width 64 r.message_id

-- uk_notify_no and uk_message_id
unfoldable pub notify_clashes : NotifyRow → NotifyRow → Bool
notify_clashes r s = sql_eq s.notify_no r.notify_no || sql_eq s.message_id r.message_id

unfoldable pub insert_notify : NotifyRow → Statement ℕ
unfolding fits_notify notify_clashes
insert_notify r db =
    if fits_notify r
    then elim (find (notify_clashes r) db.notifies) [
      | none ↦ some (1, record db { notifies = db.notifies ++ r ∷ [] })
      | some _ ↦ some (0, db)
    ]
    else none

unfoldable pub insert_notify_with_dedup : Env → Bytes → Bytes → Bytes → M NotifyInsertOutcome
unfolding insert_notify notify_row next_id
insert_notify_with_dedup env message_id order_no target_url = do
  notify_no ← next_id env
  affected ← exec_auto (insert_notify (notify_row notify_no message_id order_no target_url))
  pure (if affected == 1 then recorded notify_no else repeated)

-- The UPDATEs; a response that does not fit its TEXT column refuses them.
update_notify : Bytes → Bytes → (NotifyRow → NotifyRow) → Statement (Unit {0})
update_notify notify_no response_body f db =
    if fits_width 65535 response_body
    then some (
      tt,
      record db {
        notifies =
            update_where (λ r. sql_eq r.notify_no notify_no)
              (λ r. record (f r) { response_body = response_body }) db.notifies;
      },
    )
    else none

unfoldable pub mark_notified : Bytes → Bytes → M (Unit {0})
unfolding update_notify
mark_notified notify_no response_body =
    exec_auto (update_notify notify_no response_body (λ r. record r { status = 1 }))

unfoldable pub mark_unreachable : Bytes → ℕ → Bytes → M (Unit {0})
unfolding update_notify
mark_unreachable notify_no retry_count response_body = exec_auto (
    update_notify notify_no response_body (λ r. record r { status = 2; retry_count = retry_count }))
