-- ===== src/Mq.antt =====
-- src/utils/MqClient.cc. librabbitmq and the broker are the parameter `broker`: how each call ends, as
-- a function of the number of calls so far. The client's mutex makes its calls a sequence.
pub mod Session
pub mod Confirmed
mod Tests
use trade_reconcile_system.Base.{
  Bool, List, [], false, if◌then◌else◌, length, true, ℕ, ◌++◌, ◌==◌, ◌∷◌,
}
use trade_reconcile_system.Base.Bytes.{Bytes, codes}
use trade_reconcile_system.Models.Result.{ok}

pub data AmqpCall : Type 0 where
  new_connection tcp_socket_new socket_open login channel_open : AmqpCall
  exchange_declare : Bytes → Bytes → Bool → AmqpCall
  confirm_select : AmqpCall
  -- exchange, routing key, delivery mode, content type and payload
  basic_publish : Bytes → Bytes → ℕ → Bytes → Bytes → AmqpCall
  wait_frame : ℕ → AmqpCall
  connection_close destroy_connection : AmqpCall

-- What `amqp_simple_wait_frame_noblock` delivers: a status other than OK, a frame that is no method,
-- or the id of a method.
pub data Waited : Type 0 where
  no_frame other_frame : Waited
  method_frame : ℕ → Waited

pub record Broker : Type 0 where
  pub socket_made : ℕ → Bool
  pub socket_opened : ℕ → Bool
  pub logged_in : ℕ → Bool
  pub channel_opened : ℕ → Bool
  pub exchange_declared : ℕ → Bool
  pub confirm_selected : ℕ → Bool
  pub published : ℕ → Bool
  pub frame : ℕ → Waited

-- Whether `conn_` is set, and the calls so far.
pub record MqClient : Type 0 where
  pub connected : Bool
  pub calls : List AmqpCall

abbrev pub new_client : MqClient
new_client = record { connected = false; calls = [] }

abbrev pub exchange_name : Bytes
exchange_name = codes "trade.exchange"

abbrev pub exchange_type : Bytes
exchange_type = codes "topic"

abbrev pub confirm_timeout_seconds : ℕ
confirm_timeout_seconds = 3

-- AMQP_BASIC_ACK_METHOD
abbrev pub basic_ack_method : ℕ
basic_ack_method = 3932240

unfoldable pub call_amqp : AmqpCall → MqClient → MqClient
call_amqp c s = record s { calls = s.calls ++ c ∷ [] }

unfoldable pub close : MqClient → MqClient
unfolding call_amqp
close s =
    if s.connected
    then record (call_amqp destroy_connection (call_amqp connection_close s)) { connected = false }
    else s

-- `if (!ok) { close(); return false; }`, and what follows.
unfoldable pub check : Bool → MqClient → (MqClient → Bool × MqClient) → Bool × MqClient
unfolding close
check ok s rest = if ok then rest s else (false, close s)

-- A call with its reply, and what follows when it is in order.
unfoldable pub ask :
    AmqpCall → (ℕ → Bool) → (MqClient → Bool × MqClient) → MqClient → Bool × MqClient
unfolding check call_amqp
ask c reply rest s = check (reply (length s.calls)) (call_amqp c s) rest

module _ (broker : Broker) where
  unfoldable pub select_confirms : MqClient → Bool × MqClient
  unfolding ask
  select_confirms = ask confirm_select broker.confirm_selected (λ s. (true, s))

  -- `declareExchange`, which is durable.
  unfoldable pub declare_exchange : MqClient → Bool × MqClient
  unfolding ask select_confirms
  declare_exchange =
      ask (exchange_declare exchange_name exchange_type true) broker.exchange_declared
        select_confirms

  unfoldable pub open_channel : MqClient → Bool × MqClient
  unfolding ask declare_exchange
  open_channel = ask channel_open broker.channel_opened declare_exchange

  unfoldable pub log_in : MqClient → Bool × MqClient
  unfolding ask open_channel
  log_in = ask login broker.logged_in open_channel

  unfoldable pub open_socket : MqClient → Bool × MqClient
  unfolding ask log_in
  open_socket = ask socket_open broker.socket_opened log_in

  unfoldable pub connect : MqClient → Bool × MqClient
  unfolding ask open_socket call_amqp
  connect s =
      ask tcp_socket_new broker.socket_made open_socket
        (record (call_amqp new_connection s) { connected = true })

  unfoldable pub ensure_connected : MqClient → Bool × MqClient
  unfolding connect
  ensure_connected s = if s.connected then (true, s) else connect s

  unfoldable pub is_ack : Waited → Bool
  is_ack no_frame = false
  is_ack other_frame = false
  is_ack (method_frame id) = id == basic_ack_method

  -- `waitConfirm`
  unfoldable pub wait_confirm : MqClient → Bool × MqClient
  unfolding ask is_ack
  wait_confirm =
      ask (wait_frame confirm_timeout_seconds) (λ n. is_ack (broker.frame n)) (λ s. (true, s))

  -- The second half of `publish`: the message is persistent (delivery mode 2).
  unfoldable pub send : Bytes → Bytes → Bytes → MqClient → Bool × MqClient
  unfolding ask wait_confirm
  send exchange routing_key payload =
      ask (basic_publish exchange routing_key 2 (codes "application/json") payload) broker.published
        wait_confirm

  -- `if (!ensureConnected()) return false`, and what follows.
  unfoldable pub when_connected : (MqClient → Bool × MqClient) → Bool × MqClient → Bool × MqClient
  when_connected rest (true, s) = rest s
  when_connected rest (false, s) = (false, s)

  -- One more attempt when the first did not connect.
  unfoldable pub connect_again : Bool × MqClient → Bool × MqClient
  unfolding close ensure_connected
  connect_again (true, s) = (true, s)
  connect_again (false, s) = ensure_connected (close s)

  unfoldable pub publish : Bytes → Bytes → Bytes → MqClient → Bool × MqClient
  unfolding when_connected connect_again ensure_connected send
  publish exchange routing_key payload s =
      when_connected (send exchange routing_key payload) (connect_again (ensure_connected s))
