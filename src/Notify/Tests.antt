-- ===== src/Notify/Tests.antt =====
-- A consumer whose first delivery was interrupted, and a witness.
use trade_reconcile_system.Base.{
  Bool, [], false, find, if◌then◌else◌, length, none, refl, some, true, ℕ, ◌+◌, ◌∷◌, ◌≡◌,
}
use trade_reconcile_system.Base.Bytes.{Bytes, codes, str_eq}
use trade_reconcile_system.Base.Decimal.{digits, to_string}
use trade_reconcile_system.Base.Int.{pos}
use trade_reconcile_system.Dao.Notify.{fits_notify, notify_clashes, notify_row}
use trade_reconcile_system.Db.{Db, NotifyRow}
use trade_reconcile_system.Db.Monad.{Env, World, done}
use trade_reconcile_system.Db.Text.{sql_eq}
use trade_reconcile_system.Ids.{Generator, fresh_generator, id_text, layout, next_number}
use trade_reconcile_system.Models.Json.{JsonReader}
use trade_reconcile_system.Models.Result.{ok}
use trade_reconcile_system.Notify.{Consumer, ack, handle_message, http_response}
use trade_reconcile_system.Notify.Leaks.{refusing, run_loop-leaks}
use trade_reconcile_system.Notify.Repeats.{HasTexts, handle_message-repeats}
use trade_reconcile_system.Notify.Subscribe.{
  connect_and_subscribe, drop_conn, lose_connection, new_subscriber, note_call, round_of, run_loop,
  run_steps,
}

abbrev env : Env
env = record {
  clock = λ n. 1704067200000 + n;
  rounds = 5;
  db_now = 1704067200;
  write_compact = λ j. codes "{}";
  write_styled = λ j. codes "{ }";
}

-- A parsed body, and the text of a member.
data Body : Type 0 where
  whole : Body
  member_text : Bytes → Body

abbrev text_at : Bytes → Bytes
text_at key =
    if str_eq key (codes "messageId")
    then codes "9"
    else if str_eq key (codes "orderNo")
    then codes "42"
    else codes "19.90"

abbrev reader : JsonReader Body
reader = record {
  takes_keys = λ j. true;
  is_member = λ j key. true;
  at = λ j key. member_text (text_at key);
  is_numeric = λ j. false;
  is_string = λ j. true;
  as_int = λ j. none;
  as_int64 = λ j. none;
  as_string = λ j. elim j [ whole ↦ none | member_text s ↦ some s ];
  as_bool = λ j. none;
}

abbrev consumer : Consumer Body
consumer = record {
  parse = λ message. some whole;
  reader = reader;
  notify_base_url = codes "http://127.0.0.1:8080";
  answer = λ attempt. http_response 200 [];
}

texts : HasTexts consumer []
unfolding str_eq
texts = record {
  json = whole;
  parsed = refl;
  keyed = refl;
  has_id = refl;
  has_order = refl;
  message_id = codes "9";
  id_value = refl;
  order_no = codes "42";
  order_value = refl;
  amount = codes "19.90";
  amount_value = refl;
}

-- The record of a delivery that has not reached the merchant: status 0.
abbrev interrupted : NotifyRow
interrupted = record {
  notify_no = codes "77";
  order_no = codes "42";
  target_url = codes "http://127.0.0.1:8080/api/v1/mock/notify";
  response_body = [];
  status = 0;
  retry_count = 0;
  message_id = codes "9";
}

abbrev shop : Db
shop = record {
  products = [];
  orders = [];
  idempotents = [];
  accounts = [];
  flows = [];
  payments = [];
  messages = [];
  notifies = interrupted ∷ [];
  batches = [];
  diffs = [];
}

abbrev start : World
start = record {
  committed = shop;
  working = shop;
  finished = false;
  generator = fresh_generator;
  faults = [];
}

abbrev first_generator : Generator
first_generator = record { last_timestamp_ms = pos 1704067200000; sequence = 0; readings = 1 }

handle_message-repeats_example :
    let (o, w') = handle_message env consumer [] (record start { faults = [] }) in
    (o ≡ done (ack, [])) × (w'.committed ≡ start.committed)
unfolding next_number fits_notify notify_row notify_clashes find sql_eq str_eq layout id_text
    to_string digits texts
handle_message-repeats_example =
    handle_message-repeats consumer env [] start texts (layout 1704067200000 0) first_generator
      interrupted refl refl refl

abbrev willing : ℕ → Bool
willing n = true

-- A subscription that succeeds makes twelve calls and consumes with manual acknowledgement; when its
-- connection is lost, nothing is left.
subscribes :
    let (ok, s) = connect_and_subscribe willing new_subscriber in
    (ok ≡ true)
    × (s.live ≡ 1)
    × (length s.history ≡ 12)
    × ((run_loop willing 1 new_subscriber).live ≡ 0)
unfolding connect_and_subscribe run_steps note_call run_loop round_of lose_connection drop_conn
subscribes = (refl, refl, refl, refl)

run_loop-leaks_example : (run_loop refusing 3 new_subscriber).live ≡ 3
run_loop-leaks_example = run_loop-leaks 3
