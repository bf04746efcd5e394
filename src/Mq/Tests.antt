-- ===== src/Mq/Tests.antt =====
-- A broker that confirms, one that is away, and witnesses.
use trade_reconcile_system.Base.{Bool, false, inr, length, refl, true, ℕ, ◌≡◌}
use trade_reconcile_system.Base.Bytes.{codes}
use trade_reconcile_system.Models.Result.{ok}
use trade_reconcile_system.Mq.{
  Broker, MqClient, ask, call_amqp, check, close, connect, connect_again, declare_exchange,
  ensure_connected, is_ack, log_in, method_frame, new_client, no_frame, open_channel, open_socket,
  publish, select_confirms, send, wait_confirm, when_connected,
}
use trade_reconcile_system.Mq.Session.{EndsReady, IsOrderly, follow, publish-EndsReady}

abbrev always : ℕ → Bool
always n = true

abbrev confirming : Broker
confirming = record {
  socket_made = always;
  socket_opened = always;
  logged_in = always;
  channel_opened = always;
  exchange_declared = always;
  confirm_selected = always;
  published = always;
  frame = λ n. method_frame 3932240;
}

abbrev silent : Broker
silent = record confirming { frame = λ n. no_frame }

abbrev away : Broker
away = record confirming { socket_opened = λ n. false }

abbrev published_once : MqClient
published_once = (publish confirming (codes "x") (codes "k") (codes "{}") new_client).1

confirms :
    publish confirming (codes "x") (codes "k") (codes "{}") new_client ≡ (true, published_once)
unfolding publish when_connected connect_again ensure_connected connect open_socket log_in
    open_channel declare_exchange select_confirms send wait_confirm ask check call_amqp is_ack
confirms = refl

-- Without a confirm the publish fails and the connection is gone.
times_out :
    let (ok, s) = publish silent (codes "x") (codes "k") (codes "{}") new_client in
    (ok ≡ false) × (s.connected ≡ false) × (length s.calls ≡ 11)
unfolding publish when_connected connect_again ensure_connected connect open_socket log_in
    open_channel declare_exchange select_confirms send wait_confirm ask check call_amqp is_ack close
times_out = (refl, refl, refl)

-- Two attempts, each with a connection of its own that is destroyed.
tries_twice :
    let (ok, s) = publish away (codes "x") (codes "k") (codes "{}") new_client in
    (ok ≡ false) × (length s.calls ≡ 10)
unfolding publish when_connected connect_again ensure_connected connect open_socket ask check
    call_amqp close
tries_twice = (refl, refl)

new_client-IsOrderly : IsOrderly new_client
unfolding follow
new_client-IsOrderly = inr (refl, refl)

publish-EndsReady_example :
    EndsReady (publish silent (codes "x") (codes "k") (codes "{}") new_client)
publish-EndsReady_example =
    publish-EndsReady silent (codes "x") (codes "k") (codes "{}") new_client new_client-IsOrderly
