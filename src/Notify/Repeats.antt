-- ===== src/Notify/Repeats.antt =====
-- A message that is delivered again.
use trade_reconcile_system.Base.{[], ap, find, if◌then◌else◌, refl, some, true, ℕ, ◌++◌, ◌∙◌, ◌≡◌}
use trade_reconcile_system.Base.Bytes.{Bytes, codes}
use trade_reconcile_system.Dao.Notify.{
  fits_notify, insert_notify, insert_notify_with_dedup, notify_clashes, notify_row,
}
use trade_reconcile_system.Db.{NotifyRow}
use trade_reconcile_system.Db.Monad.{
  Env, M, World, autocommit, done, exec_auto, exec_auto_on, next_id, pure, resume, store_generated,
  ◌>>=◌,
}
use trade_reconcile_system.Ids.{Generator, generated, id_text, next_number}
use trade_reconcile_system.Notify.{
  Consumer, Processed, ack, field_text, handle_message, notify_new, notify_path, process,
  process_json, process_texts,
}

module _ {J : Type 0} (c : Consumer J) where
  -- The body is parsed, has the members `messageId` and `orderNo`, and they and `amount`, if it is there,
  -- convert to texts.
  pub record HasTexts (message : Bytes) : Type 0 where
    pub json : J
    pub parsed : c.parse message ≡ some json
    pub keyed : c.reader.takes_keys json ≡ true
    pub has_id : c.reader.is_member json (codes "messageId") ≡ true
    pub has_order : c.reader.is_member json (codes "orderNo") ≡ true
    pub message_id : Bytes
    pub id_value : c.reader.as_string (c.reader.at json (codes "messageId")) ≡ some message_id
    pub order_no : Bytes
    pub order_value : c.reader.as_string (c.reader.at json (codes "orderNo")) ≡ some order_no
    pub amount : Bytes
    pub amount_value :
        (if c.reader.is_member json (codes "amount")
          then c.reader.as_string (c.reader.at json (codes "amount"))
          else some [])
        ≡ some amount

  routed :
      (env : Env) (message : Bytes) (texts : HasTexts message)
      → process c env message
        ≡ process_texts c env (some texts.message_id) (some texts.order_no) (some texts.amount)
  unfolding process process_json field_text
  routed env message texts =
      rw (texts.parsed, process)
        (rw (texts.keyed, process_json)
          (rw (texts.has_id, process_json)
            (rw (texts.has_order, process_json)
              (rw (texts.id_value, texts.order_value, texts.amount_value) refl))))

  passed_over :
      (env : Env) (w : World) (message_id order_no amount : Bytes) (n : ℕ) (g : Generator)
      (row : NotifyRow)
      → next_number env.rounds env.clock w.generator ≡ generated n g
      → fits_notify (notify_row (id_text n) message_id order_no (c.notify_base_url ++ notify_path))
        ≡ true
      → find
          (notify_clashes
            (notify_row (id_text n) message_id order_no (c.notify_base_url ++ notify_path)))
          w.committed.notifies
        ≡ some row
      → process_texts c env
          (some message_id)
          (some order_no)
          (some amount)
          (record w { faults = [] })
        ≡ (done (record { handled = true; asked = [] }), record w { generator = g; faults = [] })
  unfolding process_texts insert_notify_with_dedup insert_notify notify_new next_id store_generated
      exec_auto exec_auto_on autocommit ◌>>=◌ resume pure
  passed_over env w message_id order_no amount n g row issued fits present =
      rw issued (rw fits (rw present refl))

  -- When the message has its texts, its id or the new number is already in the records, whatever their
  -- status, the id generator gives a number, and no statement fails, the message is acknowledged, no
  -- request goes to the merchant, and the database stays as it is.
  pub handle_message-repeats :
      (env : Env) (message : Bytes) (w : World) (texts : HasTexts message) (n : ℕ) (g : Generator)
      (row : NotifyRow)
      → next_number env.rounds env.clock w.generator ≡ generated n g
      → fits_notify (
          notify_row (id_text n) texts.message_id texts.order_no (c.notify_base_url ++ notify_path))
        ≡ true
      → find
          (notify_clashes (
            notify_row
              (id_text n)
              texts.message_id
              texts.order_no
              (c.notify_base_url ++ notify_path)))
          w.committed.notifies
        ≡ some row
      → let (o, w') = handle_message env c message (record w { faults = [] }) in
        (o ≡ done (ack, [])) × (w'.committed ≡ w.committed)
  unfolding handle_message ◌>>=◌ resume pure
  handle_message-repeats env message w texts n g row issued fits present =
      let skipped =
        ap (λ (m : M Processed). m (record w { faults = [] })) (routed env message texts)
        ∙ passed_over env w texts.message_id texts.order_no texts.amount n g row issued fits
            present in
      rw skipped (refl, refl)
