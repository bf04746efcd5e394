-- ===== src/Relay/Waits.antt =====
-- A message that the broker did not take.
use trade_reconcile_system.Base.{
  Bool, Bool-cases, List, Option, [], false, inl, inr, leb, map, none, refl, some, true,
  update_where, ℕ, ◌+◌, ◌∷◌, ◌≡◌, ◌≢◌,
}
use trade_reconcile_system.Dao.LocalMessage.{mark_failed, update_messages}
use trade_reconcile_system.Db.{LocalMessageRow}
use trade_reconcile_system.Db.Monad.{Env, World, autocommit, exec_auto, exec_auto_on, throw}
use trade_reconcile_system.Models.Payment.{LocalMessage}
use trade_reconcile_system.Mq.{publish}
use trade_reconcile_system.Relay.{deliver, isolated, max_retries, relay_one, retry}

abbrev pub statuses : World → List ℕ
statuses w = map (λ r. r.status) w.committed.messages

-- An UPDATE that keeps the status of each row keeps the statuses, whether it runs or fails.
map-update_where :
    (p : LocalMessageRow → Bool) (f : LocalMessageRow → LocalMessageRow)
    (rows : List LocalMessageRow)
    → ((r : LocalMessageRow) → (f r).status ≡ r.status)
    → map {B = ℕ} (λ r. r.status) (update_where p f rows) ≡ map (λ r. r.status) rows
unfolding update_where
map-update_where p f [] keeps = refl
map-update_where p f (r ∷ rows) keeps = elim (Bool-cases (p r)) [
  | inl hit ↦ rw hit (rw (keeps r) (rw (map-update_where p f rows keeps) refl))
  | inr miss ↦ rw miss (rw (map-update_where p f rows keeps) refl)
]

update-statuses :
    (p : LocalMessageRow → Bool) (f : LocalMessageRow → LocalMessageRow) (l : List Bool) (w : World)
    → ((r : LocalMessageRow) → (f r).status ≡ r.status)
    → statuses
        (isolated (
          exec_auto_on
            (λ db. some (tt, record db { messages = update_where p f db.messages }))
            l
            w)).1
      ≡ statuses w
unfolding exec_auto_on autocommit isolated
update-statuses p f [] w keeps = map-update_where p f w.committed.messages keeps
update-statuses p f (true ∷ rest) w keeps = refl
update-statuses p f (false ∷ rest) w keeps = map-update_where p f w.committed.messages keeps

deliver-statuses :
    (env : Env) (msg : LocalMessage) (confirm : Option Bool) (w : World)
    → confirm ≢ some true
    → leb max_retries (msg.retry_count + 1) ≡ false
    → statuses (isolated (deliver env msg confirm w)).1 ≡ statuses w
unfolding deliver retry mark_failed update_messages throw isolated exec_auto
deliver-statuses env msg none w refused early = refl
deliver-statuses env msg (some true) w refused early = absurd (refused refl)
deliver-statuses env msg (some false) w refused early =
    rw early (update-statuses _ _ w.faults w (λ r. refl))

-- A message that the broker did not confirm, whether it refused it or the connection failed, and
-- that has retries left, changes no status in the outbox.
pub relay_one-waits :
    (env : Env) (publish : LocalMessage → Option Bool) (msg : LocalMessage) (w : World)
    → publish msg ≢ some true
    → leb max_retries (msg.retry_count + 1) ≡ false
    → statuses (relay_one env publish msg w).1 ≡ statuses w
unfolding relay_one
relay_one-waits env publish msg w refused early =
    deliver-statuses env msg (publish msg) w refused early
