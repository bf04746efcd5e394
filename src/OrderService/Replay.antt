-- ===== src/OrderService/Replay.antt =====
-- A request that repeats an id which an earlier request has already been answered for.
use mathlib.Core.Path.{subst}
use trade_reconcile_system.Base.{
  [], arith, false, find, find-append, length, none, refl, some, sym, true, ◌+◌, ◌<◌, ◌^◌, ◌∙◌, ◌≡◌,
  ◌≤◌,
}
use trade_reconcile_system.Base.Bytes.{Bytes}
use trade_reconcile_system.Dao.Idempotent.{
  acquired_row, cached_success, find_idempotent, fits_idempotent, has_request_id, insert_idempotent,
  outcome_of, try_acquire,
}
use trade_reconcile_system.Db.{Db, IdempotentRow}
use trade_reconcile_system.Db.Monad.{
  Env, World, begin_transaction, done, exec, exec_on, guard_exit, in_transaction, pure, read_clock,
  resume, transaction, ◌>>=◌, ◌>>◌,
}
use trade_reconcile_system.Db.Text.{sql_eq_refl}
use trade_reconcile_system.Models.Account.{Idempotent, being_processed}
use trade_reconcile_system.Models.Order.{CreateOrderReq, Order}
use trade_reconcile_system.OrderService.{
  body, build_idempotent_record, cached, caught, create_order, create_order_api_path, db_time,
  db_time_after, idempotent_expire_minutes, in_range, proceed, snapshot,
}
use trade_reconcile_system.OrderService.Atomic.{OrderPlaced, placed_db}
use trade_reconcile_system.OrderService.Keys.{answered_row}

try_acquire-answered :
    (i : Idempotent) (w : World) (row : IdempotentRow)
    → fits_idempotent i ≡ true
    → find (has_request_id i.request_id) w.working.idempotents ≡ some row
    → row.status ≡ 1
    → try_acquire i (record w { faults = [] })
      ≡ (done (cached_success row.response_body), record w { faults = [] })
unfolding try_acquire insert_idempotent exec exec_on in_transaction find_idempotent outcome_of ◌>>=◌
    resume pure
try_acquire-answered i w row fits found status =
    let again : find_idempotent i.request_id w.working ≡ some row = found in
    let told : outcome_of (some row) ≡ cached_success row.response_body = rw status in
    rw (fits, found, again, told)

pub key_fits :
    (i : Idempotent)
    → length i.request_id ≤ 64
    → i.user_id < 2 ^ 63
    → length i.api_path ≤ 128
    → length i.request_hash ≤ 64
    → fits_idempotent i ≡ true
unfolding fits_idempotent
key_fits i a b c d = ground arith

-- The request fits the columns of the idempotent table.
abbrev pub FitsKey : CreateOrderReq → Type 0
FitsKey req = (length req.request_id ≤ 64) × (req.user_id < 2 ^ 63) × (length req.request_hash ≤ 64)

-- When no statement fails and an answered record of the request id is committed, a call with a
-- quantity in range answers with the stored response and leaves the committed database alone,
-- whatever else the request says.
pub create_order-replays :
    (env : Env) (req : CreateOrderReq) (w : World) (row : IdempotentRow)
    → find_idempotent req.request_id w.committed ≡ some row
    → row.status ≡ 1
    → in_range req.quantity ≡ true
    → FitsKey req
    → let (o, w') = create_order env req (record w { faults = [] }) in
      (o ≡ done (cached row.response_body)) × (w'.committed ≡ w.committed)
unfolding create_order caught transaction body build_idempotent_record proceed db_time_after
    read_clock exec exec_on in_transaction pure begin_transaction guard_exit find_idempotent ◌>>=◌
    ◌>>◌ resume
create_order-replays env req w row found status ranged (a, b, c) =
    let i : Idempotent = record {
      request_id = req.request_id;
      user_id = req.user_id;
      api_path = create_order_api_path;
      request_hash = req.request_hash;
      response_body = [];
      status = being_processed;
      expire_time = db_time (env.clock w.generator.readings) idempotent_expire_minutes;
    } in
    let u : World = record w {
      working = w.committed;
      finished = false;
      generator = record w.generator { readings = w.generator.readings + 1 };
    } in
    let answered = try_acquire-answered i u row (key_fits i a b (omega arith) c) found status in
    rw ranged (rw answered (refl, refl))

-- The record that a placed order leaves answers its request.
placed_db-answered :
    (req : CreateOrderReq) (db : Db) (i : Idempotent) (order : Order) (response : Bytes)
    → i.request_id ≡ req.request_id
    → find (has_request_id req.request_id) db.idempotents ≡ none
    → find_idempotent req.request_id (placed_db i order response db)
      ≡ some (answered_row i response)
unfolding find_idempotent placed_db answered_row acquired_row
placed_db-answered req db i order response same absent =
    find-append (has_request_id req.request_id) db.idempotents (answered_row i response) absent
    ∙ rw same (rw (sql_eq_refl req.request_id) refl)

-- A call that has placed an order, repeated with the same request later: as long as the committed
-- database is the one that the first call left and no statement fails, the repeated call answers
-- with the text of the first answer and places nothing.
pub create_order-again :
    (env later : Env) (req : CreateOrderReq) (w w2 : World)
    → (placed : OrderPlaced env req w.committed (create_order env req w))
    → w2.committed ≡ (create_order env req w).1.committed
    → in_range req.quantity ≡ true
    → FitsKey req
    → let (o, w') = create_order later req (record w2 { faults = [] }) in
      (o ≡ done (cached (snapshot env placed.order req.request_id))) × (w'.committed ≡ w2.committed)
unfolding answered_row
create_order-again env later req w w2 placed same ranged fits =
    let response = snapshot env placed.order req.request_id in
    let answered =
      placed_db-answered req w.committed placed.idempotent placed.order response
        placed.sold.same_request placed.sold.first_time in
    create_order-replays later req w2 (answered_row placed.idempotent response)
      (subst
        (λ d. find_idempotent req.request_id d ≡ some (answered_row placed.idempotent response))
        (sym (same ∙ placed.stored)) answered)
      refl ranged fits
