-- ===== src/OrderService/Tests.antt =====
-- Runs of `createOrder`, and witnesses.
use trade_reconcile_system.Models.Result
use trade_reconcile_system.Base.{
  [], ap, arith, count_where, false, find, inl, inr, map, none, refl, some, sym, true, update_where,
  ℕ, ◌+◌, ◌<◌, ◌∙◌, ◌∷◌, ◌≡◌,
}
use trade_reconcile_system.Base.Bytes.{codes, str_eq}
use trade_reconcile_system.Base.Calendar.{format_time}
use trade_reconcile_system.Base.Decimal.{digits, to_string}
use trade_reconcile_system.Base.Int.{pos, to_i64, ℤ, ◌*ℤ◌, ◌+ℤ◌, ◌-ℤ◌}
use trade_reconcile_system.Dao.Idempotent.{
  acquired_row, find_idempotent, insert_idempotent, mark_rows, mark_success,
}
use trade_reconcile_system.Dao.Order.{clashes, fits_order, order_row}
use trade_reconcile_system.Dao.Product.{deduct_products, deductible, find_product}
use trade_reconcile_system.Db.{Db, IdempotentRow, ProductRow}
use trade_reconcile_system.Db.Monad.{
  Env, Outcome, World, done, exec, or_throw, pure, read_clock, require,
}
use trade_reconcile_system.Db.Text.{cast_decimal, sql_eq}
use trade_reconcile_system.Ids.{Generator, fresh_generator, generated, id_text, layout, next_number}
use trade_reconcile_system.Models.Order.{CreateOrderReq, Product, on_sale}
use trade_reconcile_system.Models.Result.{Result, fail, ok}
use trade_reconcile_system.Money.{fen_to_yuan_string, negate, yuan_text}
use trade_reconcile_system.OrderService.{
  CreateOrderOutcome, cached, create_order, create_order_api_path, db_time, executed, in_range,
  new_order, snapshot,
}
use trade_reconcile_system.OrderService.Atomic.{Ends, OrderPlaced}
use trade_reconcile_system.OrderService.Refines.{create_order-Ends}
use trade_reconcile_system.OrderService.Replay.{FitsKey, create_order-again, create_order-replays}
use trade_reconcile_system.OrderService.Succeeds.{create_order-succeeds, order_at}

abbrev env : Env
env = record {
  clock = λ n. 1704067200000 + n;
  rounds = 5;
  db_now = 1704067200;
  write_compact = λ j. codes "{}";
  write_styled = λ j. codes "{ }";
}

abbrev phone : ProductRow
phone = record {
  id = 7;
  product_no = codes "P7";
  name = codes "phone";
  price = pos 39900;
  stock = 5;
  version = 0;
  status = 1;
}

abbrev shop : Db
shop = record {
  products = phone ∷ [];
  orders = [];
  idempotents = [];
  accounts = [];
  flows = [];
  payments = [];
  messages = [];
  notifies = [];
  batches = [];
  diffs = [];
}

abbrev start : World
start = record {
  committed = shop;
  working = shop;
  finished = false;
  generator = fresh_generator;
  faults = [];
}

abbrev req : ℤ → CreateOrderReq
req quantity = record {
  request_id = codes "0123456789abcdef";
  request_hash = [];
  user_id = 1;
  product_id = 7;
  quantity = quantity;
}

abbrev result_code : Outcome CreateOrderOutcome → ℕ
result_code (done (executed r)) = r.code
result_code (done (cached b)) = 1
result_code _ = 2

sells :
    let (o, w) = create_order env (req (pos 2)) start in
    (result_code o ≡ 0) × (map {B = ℕ} (λ r. r.stock) w.committed.products ≡ 3 ∷ [])
unfolding pure or_throw require new_order create_order find_product find mark_success
    deduct_products update_where count_where sql_eq str_eq on_sale layout next_number to_string
    digits format_time ◌+ℤ◌ ◌*ℤ◌ ◌-ℤ◌ to_i64 cast_decimal fen_to_yuan_string Result.ok Result.fail
    snapshot exec read_clock acquired_row order_row mark_rows insert_idempotent id_text yuan_text
    negate deductible
sells = (refl, refl)

-- A second call with the same request id, after the first one.
again :
    let (_, w) = create_order env (req (pos 2)) start in
    let (o, w') = create_order env (req (pos 2)) w in
    (result_code o ≡ 1) × (map {B = ℕ} (λ r. r.stock) w'.committed.products ≡ 3 ∷ [])
unfolding pure or_throw require new_order create_order find_product find mark_success
    deduct_products update_where count_where sql_eq str_eq on_sale layout next_number to_string
    digits format_time ◌+ℤ◌ ◌*ℤ◌ ◌-ℤ◌ to_i64 cast_decimal fen_to_yuan_string Result.ok Result.fail
    snapshot exec read_clock acquired_row order_row mark_rows insert_idempotent id_text yuan_text
    negate deductible find_idempotent
again = (refl, refl)

create_order-Ends_example :
    Ends env (req (pos 2)) start.committed (create_order env (req (pos 2)) start)
create_order-Ends_example = create_order-Ends env (req (pos 2)) start

-- The world after the first call, and what that call has done.
abbrev sold_world : World
sold_world = (create_order env (req (pos 2)) start).1

has_placed : OrderPlaced env (req (pos 2)) start.committed (create_order env (req (pos 2)) start)
has_placed = elim (create_order-Ends env (req (pos 2)) start) [
  | inl same ↦ cc (sym sells.1 ∙ ap (λ (db : Db). map {B = ℕ} (λ r. r.stock) db.products) same.kept)
  | inr placed ↦ placed
]

quantity_in_range : in_range (pos 2) ≡ true
unfolding in_range
quantity_in_range = refl

key_of_req : FitsKey (req (pos 2))
key_of_req = (omega arith, omega arith, omega arith)

create_order-again_example :
    let (o, w') = create_order env (req (pos 2)) (record sold_world { faults = [] }) in
    (o ≡ done (cached (snapshot env has_placed.order (codes "0123456789abcdef"))))
    × (w'.committed ≡ sold_world.committed)
create_order-again_example =
    create_order-again env env (req (pos 2)) start sold_world has_placed refl quantity_in_range
      key_of_req

-- A shop where the request has been answered.
abbrev answered_request : IdempotentRow
answered_request = record {
  request_id = codes "0123456789abcdef";
  user_id = 1;
  api_path = create_order_api_path;
  request_hash = [];
  response_body = codes "{}";
  status = 1;
  expire_time = codes "2024-01-02 08:00:00";
}

abbrev answered_world : World
answered_world = record start { committed = record shop { idempotents = answered_request ∷ [] } }

answered_found :
    find_idempotent (codes "0123456789abcdef") answered_world.committed ≡ some answered_request
unfolding find_idempotent find sql_eq str_eq
answered_found = refl

create_order-replays_example :
    let (o, w') = create_order env (req (pos 2)) (record answered_world { faults = [] }) in
    (o ≡ done (cached (codes "{}"))) × (w'.committed ≡ answered_world.committed)
create_order-replays_example =
    create_order-replays env (req (pos 2)) answered_world answered_request answered_found refl
      quantity_in_range key_of_req

abbrev phone_product : Product
phone_product = record {
  id = 7;
  product_no = codes "P7";
  name = codes "phone";
  price_fen = pos 39900;
  stock = 5;
  status = 1;
}

abbrev issuing : Generator
issuing = record { last_timestamp_ms = pos 1704067200001; sequence = 0; readings = 2 }

first_number :
    next_number env.rounds env.clock
      (record start.generator { readings = start.generator.readings + 1 })
    ≡ generated (layout 1704067200001 0) issuing
unfolding next_number
first_number = refl

phone_found : find_product 7 start.committed ≡ some phone_product
unfolding find_product find
phone_found = refl

phone_on_sale : on_sale phone_product ≡ true
unfolding on_sale
phone_on_sale = refl

request_is_new : find_idempotent (codes "0123456789abcdef") start.committed ≡ none
unfolding find_idempotent find
request_is_new = refl

phone_in_stock : 0 < count_where (deductible 7 (pos 2)) start.committed.products
unfolding count_where deductible
phone_in_stock = omega arith

order_fits :
    fits_order
      (order_row (order_at env (req (pos 2)) phone_product (layout 1704067200001 0) issuing))
    ≡ true
unfolding fits_order order_row new_order id_text layout to_string digits format_time ◌+ℤ◌ ◌*ℤ◌ ◌-ℤ◌
    to_i64 cast_decimal fen_to_yuan_string yuan_text negate db_time
order_fits = refl

no_order_clashes :
    find
      (clashes
        (order_row (order_at env (req (pos 2)) phone_product (layout 1704067200001 0) issuing)))
      start.committed.orders
    ≡ none
unfolding find
no_order_clashes = refl

create_order-succeeds_example :
    (create_order env (req (pos 2)) (record start { faults = [] })).0
    ≡ done (
        executed (
          Result.ok
            (order_at env (req (pos 2)) phone_product (layout 1704067200001 0) issuing)
            (codes "0123456789abcdef")))
create_order-succeeds_example =
    create_order-succeeds env (req (pos 2)) start phone_product (layout 1704067200001 0) issuing
      quantity_in_range key_of_req request_is_new phone_found phone_on_sale phone_in_stock
      first_number order_fits no_order_clashes
