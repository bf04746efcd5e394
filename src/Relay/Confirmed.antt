-- ===== src/Relay/Confirmed.antt =====
-- The relay with the client of src/utils/MqClient.cc.
use trade_reconcile_system.Base.{
  Bool, Bool-cases, Option, ap, false, inl, inr, leb, some, true, ◌+◌, ◌≡◌, ◌≢◌,
}
use trade_reconcile_system.Db.Monad.{Env, World}
use trade_reconcile_system.Models.Payment.{LocalMessage}
use trade_reconcile_system.Models.Result.{ok}
use trade_reconcile_system.Mq.{Broker, MqClient, publish}
use trade_reconcile_system.Mq.Confirmed.{IsConfirmed, publish-IsConfirmed}
use trade_reconcile_system.Relay.{max_retries, relay_one}
use trade_reconcile_system.Relay.Waits.{relay_one-waits, statuses}

-- `publish` of the relay, for a client and a broker: it answers and does not throw.
abbrev pub mq_publish : Broker → MqClient → LocalMessage → Option Bool
mq_publish broker client msg =
    some (publish broker msg.exchange msg.routing_key msg.payload client).0

published :
    (broker : Broker) (client : MqClient) (msg : LocalMessage)
    → (publish broker msg.exchange msg.routing_key msg.payload client).0 ≡ true
    → IsConfirmed broker msg.exchange msg.routing_key msg.payload
        (publish broker msg.exchange msg.routing_key msg.payload client).1
published broker client msg h =
    let r = publish broker msg.exchange msg.routing_key msg.payload client in
    publish-IsConfirmed broker msg.exchange msg.routing_key msg.payload client r.1
      (ap (λ (ok : Bool). (ok, r.1)) h)

not_published : {o : Bool} → o ≡ false → some o ≢ some true
not_published {o} e h = cc

-- When the relay of a message that has retries left changes the status of any row of the outbox, the
-- client had received the broker's Basic.Ack for this message.
pub relay_one-IsConfirmed :
    (env : Env) (broker : Broker) (client : MqClient) (msg : LocalMessage) (w : World)
    → leb max_retries (msg.retry_count + 1) ≡ false
    → statuses (relay_one env (mq_publish broker client) msg w).1 ≢ statuses w
    → IsConfirmed broker msg.exchange msg.routing_key msg.payload
        (publish broker msg.exchange msg.routing_key msg.payload client).1
relay_one-IsConfirmed env broker client msg w early changed =
    elim (Bool-cases (publish broker msg.exchange msg.routing_key msg.payload client).0) [
      | inl ok ↦ published broker client msg ok
      | inr refused ↦ absurd (
          changed
            (relay_one-waits env (mq_publish broker client) msg w (not_published refused) early))
    ]
