-- ===== src/Mq/Session.antt =====
-- The order of the client's calls to the broker (src/utils/MqClient.cc).
use trade_reconcile_system.Base.{
  Bool, List, Option, [], ap, false, inl, inr, length, none, refl, some, some_inj, true, ℕ, ◌++◌,
  ◌∙◌, ◌∷◌, ◌≡◌, ◌⊎◌,
}
use trade_reconcile_system.Base.Bytes.{Bytes, codes}
use trade_reconcile_system.Mq.{
  AmqpCall, Broker, MqClient, ask, basic_publish, call_amqp, channel_open, check, close,
  confirm_select, confirm_timeout_seconds, connect, connect_again, connection_close,
  declare_exchange, destroy_connection, ensure_connected, exchange_declare, exchange_name,
  exchange_type, is_ack, log_in, login, new_connection, open_channel, open_socket, publish,
  select_confirms, send, socket_open, tcp_socket_new, wait_confirm, wait_frame, when_connected,
}

-- A connection's stages, from the first call to the confirm mode, and a publish that is not confirmed.
pub data Session : Type 0 where
  closed created has_socket opened logged_in_ has_channel has_exchange ready unconfirmed closing :
      Session

-- The rule: each stage allows its next call or the start of the end. The exchange is declared before the
-- confirm mode is selected, nothing is published outside that mode, each publish is followed by a
-- wait for its confirm, and a connection is ended and destroyed before the next one begins.
abbrev pub allowed_call : Session → AmqpCall → Option Session
allowed_call closed new_connection = some created
allowed_call created tcp_socket_new = some has_socket
allowed_call has_socket socket_open = some opened
allowed_call opened login = some logged_in_
allowed_call logged_in_ channel_open = some has_channel
allowed_call has_channel (exchange_declare name type durable) = some has_exchange
allowed_call has_exchange confirm_select = some ready
allowed_call ready (basic_publish exchange key mode type payload) = some unconfirmed
allowed_call unconfirmed (wait_frame seconds) = some ready
allowed_call closing destroy_connection = some closed
allowed_call closed connection_close = none
allowed_call closing connection_close = none
allowed_call s connection_close = some closing
allowed_call s c = none

unfoldable pub follow : Option Session → List AmqpCall → Option Session
follow none calls = none
follow (some s) [] = some s
follow (some s) (c ∷ calls) = follow (allowed_call s c) calls

follow-nil : (o : Option Session) → follow o [] ≡ o
unfolding follow
follow-nil none = refl
follow-nil (some s) = refl

pub follow-call :
    (o : Option Session) (calls : List AmqpCall) (c : AmqpCall) {t : Session}
    → follow o calls ≡ some t
    → follow o (calls ++ c ∷ []) ≡ allowed_call t c
unfolding follow
follow-call none calls c h = cc
follow-call (some s) [] c h =
    follow-nil (allowed_call s c) ∙ ap (λ u. allowed_call u c) (some_inj h)
follow-call (some s) (d ∷ calls) c h = follow-call (allowed_call s d) calls c h

-- The client has a connection at this stage, and may end it.
abbrev pub IsOpen : Session → MqClient → Type 0
IsOpen session s =
    (follow (some closed) s.calls ≡ some session)
    × (s.connected ≡ true)
    × (allowed_call session connection_close ≡ some closing)

-- The client has no connection, and its calls have kept the rule.
abbrev pub IsClosed : MqClient → Type 0
IsClosed s = (follow (some closed) s.calls ≡ some closed) × (s.connected ≡ false)

abbrev pub IsOrderly : MqClient → Type 0
IsOrderly s = IsOpen ready s ⊎ IsClosed s

-- An operation that succeeds leaves a connection that is ready, one that fails leaves none.
abbrev pub EndsReady : Bool × MqClient → Type 0
EndsReady (true, s) = IsOpen ready s
EndsReady (false, s) = IsClosed s

pub close-IsClosed : (session : Session) (s : MqClient) → IsOpen session s → IsClosed (close s)
unfolding close call_amqp
close-IsClosed session s (at, connected, closable) = rw connected (
  follow-call (some closed) (s.calls ++ connection_close ∷ []) destroy_connection
      (follow-call (some closed) s.calls connection_close at ∙ closable),
  refl,
)

check-EndsReady :
    (session : Session) (ok : Bool) (s : MqClient) (rest : MqClient → Bool × MqClient)
    → IsOpen session s
    → ((u : MqClient) → IsOpen session u → EndsReady (rest u))
    → EndsReady (check ok s rest)
unfolding check
check-EndsReady session true s rest h go_on = go_on s h
check-EndsReady session false s rest h go_on = close-IsClosed session s h

ask-EndsReady :
    (c : AmqpCall) (reply : ℕ → Bool) (rest : MqClient → Bool × MqClient) (p q : Session)
    (s : MqClient)
    → allowed_call p c ≡ some q
    → allowed_call q connection_close ≡ some closing
    → ((u : MqClient) → IsOpen q u → EndsReady (rest u))
    → IsOpen p s
    → EndsReady (ask c reply rest s)
unfolding ask call_amqp
ask-EndsReady c reply rest p q s allows closable go_on (at, connected, _) =
    check-EndsReady q (reply (length s.calls)) (call_amqp c s) rest
      (follow-call (some closed) s.calls c at ∙ allows, connected, closable) go_on

module _ (broker : Broker) where
  select_confirms-EndsReady :
      (s : MqClient) → IsOpen has_exchange s → EndsReady (select_confirms broker s)
  unfolding select_confirms
  select_confirms-EndsReady s h =
      ask-EndsReady confirm_select broker.confirm_selected (λ s. (true, s)) has_exchange ready s
        refl refl (λ u h. h) h

  declare_exchange-EndsReady :
      (s : MqClient) → IsOpen has_channel s → EndsReady (declare_exchange broker s)
  unfolding declare_exchange
  declare_exchange-EndsReady s h =
      ask-EndsReady (exchange_declare exchange_name exchange_type true) broker.exchange_declared
        (select_confirms broker) has_channel has_exchange s refl refl select_confirms-EndsReady h

  open_channel-EndsReady : (s : MqClient) → IsOpen logged_in_ s → EndsReady (open_channel broker s)
  unfolding open_channel
  open_channel-EndsReady s h =
      ask-EndsReady channel_open broker.channel_opened (declare_exchange broker) logged_in_
        has_channel s refl refl declare_exchange-EndsReady h

  log_in-EndsReady : (s : MqClient) → IsOpen opened s → EndsReady (log_in broker s)
  unfolding log_in
  log_in-EndsReady s h =
      ask-EndsReady login broker.logged_in (open_channel broker) opened logged_in_ s refl refl
        open_channel-EndsReady h

  open_socket-EndsReady : (s : MqClient) → IsOpen has_socket s → EndsReady (open_socket broker s)
  unfolding open_socket
  open_socket-EndsReady s h =
      ask-EndsReady socket_open broker.socket_opened (log_in broker) has_socket opened s refl refl
        log_in-EndsReady h

  connect-EndsReady : (s : MqClient) → IsClosed s → EndsReady (connect broker s)
  unfolding connect call_amqp
  connect-EndsReady s (at, unconnected) =
      ask-EndsReady tcp_socket_new broker.socket_made (open_socket broker) created has_socket
        (record (call_amqp new_connection s) { connected = true }) refl refl open_socket-EndsReady
        (follow-call (some closed) s.calls new_connection at, refl, refl)

  ensure_connected-EndsReady : (s : MqClient) → IsOrderly s → EndsReady (ensure_connected broker s)
  unfolding ensure_connected
  ensure_connected-EndsReady s (inl open_now) = rw (open_now.1) (open_now.0, refl, refl)
  ensure_connected-EndsReady s (inr none_now) = rw (none_now.1) (connect-EndsReady s none_now)

  wait_confirm-EndsReady : (s : MqClient) → IsOpen unconfirmed s → EndsReady (wait_confirm broker s)
  unfolding wait_confirm
  wait_confirm-EndsReady s h =
      ask-EndsReady (wait_frame confirm_timeout_seconds) (λ n. is_ack broker (broker.frame n))
        (λ u. (true, u)) unconfirmed ready s refl refl (λ u k. k) h

  send-EndsReady :
      (exchange routing_key payload : Bytes) (s : MqClient)
      → IsOpen ready s
      → EndsReady (send broker exchange routing_key payload s)
  unfolding send
  send-EndsReady exchange routing_key payload s h =
      ask-EndsReady (basic_publish exchange routing_key 2 (codes "application/json") payload)
        broker.published (wait_confirm broker) ready unconfirmed s refl refl wait_confirm-EndsReady
        h

  close_none-IsClosed : (s : MqClient) → IsClosed s → IsClosed (close s)
  unfolding close
  close_none-IsClosed s h = rw (h.1) (h.0, refl)

  connect_again-EndsReady : (r : Bool × MqClient) → EndsReady r → EndsReady (connect_again broker r)
  unfolding connect_again
  connect_again-EndsReady (true, s) h = h
  connect_again-EndsReady (false, s) h =
      ensure_connected-EndsReady (close s) (inr (close_none-IsClosed s h))

  when_connected-EndsReady :
      (rest : MqClient → Bool × MqClient) (r : Bool × MqClient)
      → ((s : MqClient) → IsOpen ready s → EndsReady (rest s))
      → EndsReady r
      → EndsReady (when_connected broker rest r)
  unfolding when_connected
  when_connected-EndsReady rest (true, s) go_on h = go_on s h
  when_connected-EndsReady rest (false, s) go_on h = h

  -- From a client whose calls have kept the rule, whatever the broker answers, a publish keeps it: when it
  -- succeeds the connection is open and ready for the next, and when it fails there is none.
  pub publish-EndsReady :
      (exchange routing_key payload : Bytes) (s : MqClient)
      → IsOrderly s
      → EndsReady (publish broker exchange routing_key payload s)
  unfolding publish
  publish-EndsReady exchange routing_key payload s h =
      when_connected-EndsReady (send broker exchange routing_key payload) _
        (send-EndsReady exchange routing_key payload)
        (connect_again-EndsReady (ensure_connected broker s) (ensure_connected-EndsReady s h))
