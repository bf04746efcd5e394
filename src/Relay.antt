-- ===== src/Relay.antt =====
-- src/tasks/MessageRelayTask.cc: one round of `relay`. `MqClient::publish` is the parameter `publish`:
-- the confirm of the broker for a message, or `none` when it throws.
pub mod Waits
pub mod Confirmed
mod Tests
use trade_reconcile_system.Base.{
  Bool, List, Option, [], false, if◌then◌else◌, leb, none, some, true, ℕ, ◌*◌, ◌+◌, ◌-◌, ◌^◌, ◌∷◌,
}
use trade_reconcile_system.Dao.LocalMessage.{mark_acked, mark_failed, mark_give_up, scan_pending}
use trade_reconcile_system.Db.Monad.{
  Env, M, Outcome, World, done, hang, pure, std_exception, throw, thrown, ◌>>=◌, ◌>>◌,
}
use trade_reconcile_system.Models.Payment.{LocalMessage}
use trade_reconcile_system.Mq.{publish}

abbrev pub batch_limit : ℕ
batch_limit = 200

abbrev pub max_retries : ℕ
max_retries = 8

abbrev pub base_backoff_seconds : ℕ
base_backoff_seconds = 5

-- `kBaseBackoffSeconds * (1 << (next - 1))`
unfoldable pub backoff_seconds : ℕ → ℕ
backoff_seconds next = base_backoff_seconds * 2 ^ (next - 1)

-- A publish that the broker did not confirm.
unfoldable pub retry : Env → LocalMessage → M (Unit {0})
unfolding mark_give_up mark_failed backoff_seconds
retry env msg =
    let next = msg.retry_count + 1 in
    if leb max_retries next
    then mark_give_up msg.message_id
    else mark_failed env msg.message_id next (backoff_seconds next)

unfoldable pub deliver : Env → LocalMessage → Option Bool → M (Unit {0})
unfolding mark_acked retry throw
deliver env msg none = throw std_exception
deliver env msg (some true) = mark_acked msg.message_id
deliver env msg (some false) = retry env msg

-- The `catch` inside the loop: one message that fails does not stop the batch.
unfoldable pub isolated : Outcome (Unit {0}) × World → Outcome (Unit {0}) × World
isolated (done u, w) = (done u, w)
isolated (thrown e, w) = (done tt, w)
isolated (hang, w) = (hang, w)

unfoldable pub relay_one : Env → (LocalMessage → Option Bool) → LocalMessage → M (Unit {0})
unfolding isolated deliver
relay_one env publish msg w = isolated (deliver env msg (publish msg) w)

unfoldable pub relay_all : Env → (LocalMessage → Option Bool) → List LocalMessage → M (Unit {0})
unfolding relay_one pure ◌>>◌
relay_all env publish [] = pure tt
relay_all env publish (msg ∷ messages) = relay_one env publish msg >> relay_all env publish messages

unfoldable pub relay : Env → (LocalMessage → Option Bool) → M (Unit {0})
unfolding scan_pending relay_all ◌>>=◌
relay env publish = scan_pending env batch_limit >>= relay_all env publish
