-- ===== src/Notify/Subscribe.antt =====
-- src/consumer/NotifyConsumer.cc: `connectAndSubscribe`, `consumeLoop` and `runLoop`. librabbitmq and the
-- broker are the parameter `answers`: whether the call with this number is in order.
use trade_reconcile_system.Base.{
  Bool, List, [], false, if◌then◌else◌, length, suc, true, zero, ℕ, ◌++◌, ◌-◌, ◌∷◌,
}
use trade_reconcile_system.Base.Bytes.{Bytes, codes}
use trade_reconcile_system.Db.Monad.{Env, M, pure, ◌>>=◌}
use trade_reconcile_system.Notify.{Acknowledgement, Consumer, MerchantRequest, handle_message}

pub data ConsumerCall : Type 0 where
  make_connection make_socket connect_socket : ConsumerCall
  authenticate : ConsumerCall
  start_channel : ConsumerCall
  -- the name; type topic, durable
  declare_topic : Bytes → ConsumerCall
  -- the name and the arguments of the dead letters; durable
  declare_queue : Bytes → List (Bytes × Bytes) → ConsumerCall
  -- queue, exchange and routing key
  bind_queue : Bytes → Bytes → Bytes → ConsumerCall
  -- the queue, and whether the broker may take a delivery for acknowledged
  consume : Bytes → Bool → ConsumerCall
  finish_connection drop_connection : ConsumerCall

abbrev pub main_exchange : Bytes
main_exchange = codes "trade.exchange"

abbrev pub main_queue : Bytes
main_queue = codes "trade.notify.queue"

abbrev pub order_paid_key : Bytes
order_paid_key = codes "order.paid"

abbrev pub dead_exchange : Bytes
dead_exchange = codes "trade.dead.exchange"

abbrev pub dead_queue : Bytes
dead_queue = codes "trade.dead.queue"

abbrev pub order_dead_key : Bytes
order_dead_key = codes "order.dead"

-- conn_, the connections that have been made and not destroyed, and the calls so far.
pub record Subscriber : Type 0 where
  pub has_conn : Bool
  pub live : ℕ
  pub history : List ConsumerCall

abbrev pub new_subscriber : Subscriber
new_subscriber = record { has_conn = false; live = 0; history = [] }

-- What the code does when a call fails, before it returns false.
pub data OnFailure : Type 0 where
  drops drops_orderly leaves : OnFailure

unfoldable pub note_call : ConsumerCall → Subscriber → Subscriber
note_call c s = record s { history = s.history ++ c ∷ [] }

unfoldable pub drop_conn : Subscriber → Subscriber
unfolding note_call
drop_conn s = record (note_call drop_connection s) { has_conn = false; live = s.live - 1 }

unfoldable pub give_up : OnFailure → Subscriber → Subscriber
unfolding drop_conn note_call
give_up drops s = drop_conn s
give_up drops_orderly s = drop_conn (note_call finish_connection s)
give_up leaves s = s

-- The calls after `amqp_new_connection`, in order, each with what its failure does.
abbrev pub subscribe_steps : List (OnFailure × ConsumerCall)
subscribe_steps =
    (drops, make_socket)
    ∷ (drops, connect_socket)
    ∷ (drops_orderly, authenticate)
    ∷ (drops_orderly, start_channel)
    ∷ (leaves, declare_topic main_exchange)
    ∷ (leaves, declare_topic dead_exchange)
    ∷ (leaves, declare_queue dead_queue [])
    ∷ (leaves, bind_queue dead_queue dead_exchange order_dead_key)
    ∷ (
      leaves,
      declare_queue main_queue (
          (codes "x-dead-letter-exchange", dead_exchange)
          ∷ (codes "x-dead-letter-routing-key", order_dead_key)
          ∷ []),
    )
    ∷ (leaves, bind_queue main_queue main_exchange order_paid_key)
    ∷ (leaves, consume main_queue false)
    ∷ []

unfoldable pub run_steps :
    (ℕ → Bool) → List (OnFailure × ConsumerCall) → Subscriber → Bool × Subscriber
unfolding note_call give_up
run_steps answers [] s = (true, s)
run_steps answers ((failure, c) ∷ rest) s =
    let go_on = run_steps answers rest (note_call c s) in
    if answers (length s.history) then go_on else (false, give_up failure (note_call c s))

-- `conn_ = amqp_new_connection()`: whatever was in `conn_` is overwritten.
unfoldable pub connect_and_subscribe : (ℕ → Bool) → Subscriber → Bool × Subscriber
unfolding run_steps note_call
connect_and_subscribe answers s =
    run_steps answers subscribe_steps
      (record (note_call make_connection s) { has_conn = true; live = suc s.live })

-- `consumeLoop`: the deliveries until the connection is lost, one after the other.
unfoldable pub handle_all :
    {J : Type 0} → Env → Consumer J → List Bytes → M (List (Acknowledgement × List MerchantRequest))
unfolding handle_message pure ◌>>=◌
handle_all env c [] = pure []
handle_all env c (message ∷ messages) = do
  a ← handle_message env c message
  rest ← handle_all env c messages
  pure (a ∷ rest)

-- The end of `consumeLoop`, when the connection is lost.
unfoldable pub lose_connection : Subscriber → Subscriber
unfolding drop_conn note_call
lose_connection s = drop_conn (note_call finish_connection s)

-- Some rounds of `runLoop`; a round that subscribes consumes until it loses the connection.
unfoldable pub round_of : Bool × Subscriber → Subscriber
unfolding lose_connection
round_of (true, s) = lose_connection s
round_of (false, s) = s

unfoldable pub run_loop : (ℕ → Bool) → ℕ → Subscriber → Subscriber
unfolding connect_and_subscribe round_of
run_loop answers zero s = s
run_loop answers (suc rounds) s =
    run_loop answers rounds (round_of (connect_and_subscribe answers s))
