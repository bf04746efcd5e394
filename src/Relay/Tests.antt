-- ===== src/Relay/Tests.antt =====
-- A round with a broker that is away, and a witness.
use trade_reconcile_system.Base.{
  [], false, map, refl, some, sym, true, update_where, ℕ, ◌+◌, ◌∙◌, ◌∷◌, ◌≡◌, ◌≢◌,
}
use trade_reconcile_system.Base.Bytes.{codes, str_eq}
use trade_reconcile_system.Dao.LocalMessage.{
  due_rows, is_due, mark_acked, mark_failed, scan_pending, update_messages,
}
use trade_reconcile_system.Db.{Db, LocalMessageRow}
use trade_reconcile_system.Db.Monad.{
  Env, World, autocommit, exec_auto, exec_auto_on, pure, resume, ◌>>=◌, ◌>>◌,
}
use trade_reconcile_system.Db.Text.{sql_eq}
use trade_reconcile_system.Ids.{fresh_generator}
use trade_reconcile_system.Models.Payment.{LocalMessage, pending}
use trade_reconcile_system.Mq.{
  Broker, ask, call_amqp, check, connect, connect_again, declare_exchange, ensure_connected, is_ack,
  log_in, method_frame, new_client, open_channel, open_socket, publish, select_confirms, send,
  wait_confirm, when_connected,
}
use trade_reconcile_system.Mq.Confirmed.{IsConfirmed}
use trade_reconcile_system.Relay.{
  backoff_seconds, deliver, isolated, relay, relay_all, relay_one, retry,
}
use trade_reconcile_system.Relay.Confirmed.{mq_publish, relay_one-IsConfirmed}
use trade_reconcile_system.Relay.Waits.{statuses}

abbrev env : Env
env = record {
  clock = λ n. 1704067200000 + n;
  rounds = 5;
  db_now = 1704067200;
  write_compact = λ j. codes "{}";
  write_styled = λ j. codes "{ }";
}

abbrev waiting : LocalMessageRow
waiting = record {
  message_id = codes "9";
  biz_type = codes "ORDER_PAID";
  biz_id = codes "42";
  exchange = codes "trade.exchange";
  routing_key = codes "order.paid";
  payload = codes "{}";
  status = 0;
  retry_count = 2;
  next_retry_time = 1704067200;
}

abbrev shop : Db
shop = record {
  products = [];
  orders = [];
  idempotents = [];
  accounts = [];
  flows = [];
  payments = [];
  messages = waiting ∷ [];
  notifies = [];
  batches = [];
  diffs = [];
}

abbrev start : World
start = record {
  committed = shop;
  working = shop;
  finished = false;
  generator = fresh_generator;
  faults = [];
}

-- The third failure waits 5 · 2² seconds.
postpones :
    map {B = ℕ} (λ r. r.next_retry_time) (relay env (λ m. some false) start).1.committed.messages
    ≡ 1704067220 ∷ []
unfolding relay scan_pending due_rows is_due relay_all relay_one deliver retry mark_failed
    backoff_seconds update_messages update_where exec_auto exec_auto_on autocommit pure ◌>>=◌ ◌>>◌
    resume isolated sql_eq str_eq
postpones = refl

confirms :
    map {B = ℕ} (λ r. r.status) (relay env (λ m. some true) start).1.committed.messages ≡ 2 ∷ []
unfolding relay scan_pending due_rows is_due relay_all relay_one deliver mark_acked update_messages
    update_where exec_auto exec_auto_on autocommit pure ◌>>=◌ ◌>>◌ resume isolated sql_eq str_eq
confirms = refl

abbrev message : LocalMessage
message = record {
  message_id = codes "9";
  biz_type = codes "ORDER_PAID";
  biz_id = codes "42";
  exchange = codes "trade.exchange";
  routing_key = codes "order.paid";
  payload = codes "{}";
  status = pending;
  retry_count = 2;
  next_retry_time = [];
}

abbrev confirming : Broker
confirming = record {
  socket_made = λ n. true;
  socket_opened = λ n. true;
  logged_in = λ n. true;
  channel_opened = λ n. true;
  exchange_declared = λ n. true;
  confirm_selected = λ n. true;
  published = λ n. true;
  frame = λ n. method_frame 3932240;
}

sent_statuses : statuses (relay_one env (mq_publish confirming new_client) message start).1 ≡ 2 ∷ []
unfolding relay_one deliver isolated mark_acked update_messages update_where exec_auto exec_auto_on
    autocommit sql_eq str_eq publish when_connected connect_again ensure_connected connect
    open_socket log_in open_channel declare_exchange select_confirms send wait_confirm ask check
    call_amqp is_ack
sent_statuses = refl

status_changed :
    statuses (relay_one env (mq_publish confirming new_client) message start).1 ≢ statuses start
status_changed e = cc (sym sent_statuses ∙ e)

relay_one-IsConfirmed_example :
    IsConfirmed confirming
      (codes "trade.exchange")
      (codes "order.paid")
      (codes "{}")
      (publish confirming (codes "trade.exchange") (codes "order.paid") (codes "{}") new_client).1
relay_one-IsConfirmed_example =
    relay_one-IsConfirmed env confirming new_client message start refl status_changed
