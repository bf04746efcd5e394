-- ===== src/Notify.antt =====
-- src/consumer/NotifyConsumer.cc: `process` and the acknowledgement of `handleMessage`. jsoncpp's parser and
-- the merchant's answers are parameters.
pub mod Repeats
pub mod Subscribe
pub mod Leaks
mod Tests
use trade_reconcile_system.Base.{
  Bool, List, Option, [], false, if◌then◌else◌, none, not, some, suc, true, zero, ℕ, ◌&&◌, ◌++◌,
  ◌+◌, ◌==◌, ◌∷◌,
}
use trade_reconcile_system.Base.Bytes.{Bytes, codes}
use trade_reconcile_system.Dao.Notify.{
  NotifyInsertOutcome, insert_notify_with_dedup, mark_notified, mark_unreachable, recorded,
  repeated,
}
use trade_reconcile_system.Db.Monad.{Env, M, pure, std_exception, throw, ◌>>=◌, ◌>>◌}
use trade_reconcile_system.Models.Json.{JsonReader}

-- The HTTP exchange: `ReqResult::Ok` with its status and body, or no response.
pub data HttpAnswer : Type 0 where
  http_response : ℕ → Bytes → HttpAnswer
  no_response : HttpAnswer

-- What the merchant is sent: the number of the record, and the order number and amount of the body.
pub record MerchantRequest : Type 0 where
  pub notify_no : Bytes
  pub order_no : Bytes
  pub amount : Bytes

-- `parse` is `parseFromStream`, and `reader` reads what it gives.
pub record Consumer (J : Type 0) : Type 0 where
  pub parse : Bytes → Option J
  pub reader : JsonReader J
  pub notify_base_url : Bytes
  pub answer : ℕ → HttpAnswer

abbrev pub notify_path : Bytes
notify_path = codes "/api/v1/mock/notify"

abbrev pub max_in_process_retries : ℕ
max_in_process_retries = 2

accepted : HttpAnswer → Option Bytes
accepted no_response = none
accepted (http_response code response) = if code == 200 then some response else none

error_text : HttpAnswer → Bytes
error_text no_response = codes "request failed"
error_text (http_response code response) = response

-- What `process` returns, and the requests that it has sent to the merchant, the latest first.
pub record Processed : Type 0 where
  pub handled : Bool
  pub asked : List MerchantRequest

module _ {J : Type 0} (c : Consumer J) where
  -- The loop from the attempt `attempt` on, with `fuel` further attempts left before the last one. Each
  -- attempt sends `request`; `asked` are those sent before.
  unfoldable pub notify_merchant : MerchantRequest → ℕ → ℕ → List MerchantRequest → M Processed
  unfolding accepted error_text mark_notified mark_unreachable pure ◌>>◌
  notify_merchant request zero attempt asked = elim (accepted (c.answer attempt)) [
    | some response ↦
        mark_notified request.notify_no response
        >> pure (record { handled = true; asked = request ∷ asked })
    | none ↦
        mark_unreachable request.notify_no (attempt + 1) (error_text (c.answer attempt))
        >> pure (record { handled = false; asked = request ∷ asked })
  ]
  notify_merchant request (suc fuel) attempt asked =
      let rest = notify_merchant request fuel (attempt + 1) (request ∷ asked) in
      elim (accepted (c.answer attempt)) [
        | some response ↦
            mark_notified request.notify_no response
            >> pure (record { handled = true; asked = request ∷ asked })
        | none ↦ rest
      ]

  unfoldable pub notify_new : Bytes → Bytes → NotifyInsertOutcome → M Processed
  unfolding notify_merchant pure
  notify_new order_no amount repeated = pure (record { handled = true; asked = [] })
  notify_new order_no amount (recorded notify_no) =
      notify_merchant (record { notify_no = notify_no; order_no = order_no; amount = amount })
        max_in_process_retries 0 []

  -- Past the conversions, one of which may throw.
  unfoldable pub process_texts : Env → Option Bytes → Option Bytes → Option Bytes → M Processed
  unfolding insert_notify_with_dedup notify_new throw
  process_texts env (some message_id) (some order_no) (some amount) = do
    outcome ← insert_notify_with_dedup env message_id order_no (c.notify_base_url ++ notify_path)
    notify_new order_no amount outcome
  process_texts env _ _ _ = throw std_exception

  unfoldable pub field_text : J → Bytes → Option Bytes
  field_text json key = c.reader.as_string (c.reader.at json key)

  unfoldable pub process_json : Env → J → M Processed
  unfolding process_texts field_text pure throw
  process_json env json =
      if not (c.reader.takes_keys json)
      then throw std_exception
      else if not
          (c.reader.is_member json (codes "messageId") && c.reader.is_member json (codes "orderNo"))
      then pure (record { handled = false; asked = [] })
      else process_texts env (field_text json (codes "messageId"))
          (field_text json (codes "orderNo"))
          (if c.reader.is_member json (codes "amount")
            then field_text json (codes "amount")
            else some [])

  unfoldable pub process : Env → Bytes → M Processed
  unfolding process_json pure
  process env message = elim (c.parse message) [
    | none ↦ pure (record { handled = false; asked = [] })
    | some json ↦ process_json env json
  ]

-- What the broker is told of a delivery; an exception of `process` leaves the thread.
pub data Acknowledgement : Type 0 where
  ack dead_letter : Acknowledgement

-- The acknowledgement, and the requests that went to the merchant before it.
unfoldable pub handle_message :
    {J : Type 0} → Env → Consumer J → Bytes → M (Acknowledgement × List MerchantRequest)
unfolding process
handle_message env c message = do
  processed ← process c env message
  pure (if processed.handled then ack else dead_letter, processed.asked)
