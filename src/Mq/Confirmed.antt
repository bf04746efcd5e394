-- ===== src/Mq/Confirmed.antt =====
-- What a publish that reports success has seen of the broker (src/utils/MqClient.cc).
use trade_reconcile_system.Base.{
  Bool, List, [], ap, arith, false, length, length-append, refl, sym, true, ℕ, ◌++◌, ◌+◌, ◌∙◌, ◌∷◌,
  ◌≡◌,
}
use trade_reconcile_system.Base.Bytes.{Bytes, codes}
use trade_reconcile_system.Mq.{
  AmqpCall, Broker, MqClient, Waited, ask, basic_ack_method, basic_publish, call_amqp, check,
  confirm_timeout_seconds, is_ack, method_frame, no_frame, other_frame, publish, send, wait_confirm,
  wait_frame, when_connected,
}

check-true :
    (ok : Bool) (s : MqClient) (rest : MqClient → Bool × MqClient) {u : MqClient}
    → check ok s rest ≡ (true, u)
    → (ok ≡ true) × (rest s ≡ (true, u))
unfolding check
check-true true s rest h = (refl, h)
check-true false s rest h = cc (ap (λ (r : Bool × MqClient). r.0) h)

ask-true :
    (c : AmqpCall) (reply : ℕ → Bool) (rest : MqClient → Bool × MqClient) (s : MqClient)
    {u : MqClient}
    → ask c reply rest s ≡ (true, u)
    → (reply (length s.calls) ≡ true) × (rest (call_amqp c s) ≡ (true, u))
unfolding ask
ask-true c reply rest s h = check-true (reply (length s.calls)) (call_amqp c s) rest h

-- The calls end with the publish of the message and the wait for its confirm, and what the broker
-- delivered then was the method Basic.Ack.
pub record IsConfirmed (broker : Broker) (exchange routing_key payload : Bytes) (u : MqClient)
    : Type 0 where
  pub before : List AmqpCall
  pub last_calls :
      u.calls
      ≡ (before ++ basic_publish exchange routing_key 2 (codes "application/json") payload ∷ [])
        ++ wait_frame confirm_timeout_seconds ∷ []
  pub sent_out : broker.published (length before) ≡ true
  pub acked : broker.frame (length before + 1) ≡ method_frame basic_ack_method

module _ (broker : Broker) where
  is_ack-true : (w : Waited) → is_ack broker w ≡ true → w ≡ method_frame basic_ack_method
  unfolding is_ack
  is_ack-true no_frame h = cc
  is_ack-true other_frame h = cc
  is_ack-true (method_frame id) h = ap method_frame (ground arith)

  wait_confirm-true :
      (s u : MqClient)
      → wait_confirm broker s ≡ (true, u)
      → (broker.frame (length s.calls) ≡ method_frame basic_ack_method)
        × (u ≡ call_amqp (wait_frame confirm_timeout_seconds) s)
  unfolding wait_confirm
  wait_confirm-true s u h =
      let (confirm, same) =
        ask-true (wait_frame confirm_timeout_seconds) (λ n. is_ack broker (broker.frame n))
          (λ v. (true, v)) s h in
      (is_ack-true _ confirm, sym (ap (λ (r : Bool × MqClient). r.1) same))

  send-IsConfirmed :
      (exchange routing_key payload : Bytes) (s u : MqClient)
      → send broker exchange routing_key payload s ≡ (true, u)
      → IsConfirmed broker exchange routing_key payload u
  unfolding send call_amqp
  send-IsConfirmed exchange routing_key payload s u h =
      let c = basic_publish exchange routing_key 2 (codes "application/json") payload in
      let (went, waits) = ask-true c broker.published (wait_confirm broker) s h in
      let (confirm, same) = wait_confirm-true (call_amqp c s) u waits in
      record {
        before = s.calls;
        last_calls = ap (λ (v : MqClient). v.calls) same;
        sent_out = went;
        acked = ap broker.frame (sym (length-append s.calls (c ∷ []))) ∙ confirm;
      }

  when_connected-true :
      (rest : MqClient → Bool × MqClient) (r : Bool × MqClient) {u : MqClient}
      → when_connected broker rest r ≡ (true, u)
      → (s : MqClient) × (rest s ≡ (true, u))
  unfolding when_connected
  when_connected-true rest (true, s) h = (s, h)
  when_connected-true rest (false, s) h = cc (ap (λ (r : Bool × MqClient). r.0) h)

  -- A publish that reports success has sent the message and received the broker's Basic.Ack for it as
  -- its last exchange with the broker.
  pub publish-IsConfirmed :
      (exchange routing_key payload : Bytes) (s u : MqClient)
      → publish broker exchange routing_key payload s ≡ (true, u)
      → IsConfirmed broker exchange routing_key payload u
  unfolding publish
  publish-IsConfirmed exchange routing_key payload s u h =
      let (v, sends) = when_connected-true (send broker exchange routing_key payload) _ h in
      send-IsConfirmed exchange routing_key payload v u sends
