-- ===== src/OrderService/Succeeds.antt =====
-- When `createOrder` does place an order.
use trade_reconcile_system.Models.Result
use trade_reconcile_system.Base.{
  [], arith, count_where, false, find, none, not, refl, some, true, ℕ, ◌++◌, ◌+◌, ◌<◌, ◌==◌, ◌∷◌,
  ◌≡◌,
}
use trade_reconcile_system.Dao.Idempotent.{
  acquired, acquired_row, find_idempotent, fits_idempotent, has_request_id, insert_idempotent,
  mark_rows, mark_success, try_acquire,
}
use trade_reconcile_system.Dao.Order.{clashes, fits_order, insert_order, insert_row, order_row}
use trade_reconcile_system.Dao.Product.{
  deduct_products, deduct_stock, deductible, find_product, get_by_id,
}
use trade_reconcile_system.Db.Monad.{
  Env, World, begin_transaction, commit, done, exec, exec_on, guard_exit, in_transaction, next_id,
  or_throw, pure, read_clock, require, resume, store_generated, transaction, ◌>>=◌, ◌>>◌,
}
use trade_reconcile_system.Ids.{Generator, generated, id_text, next_number}
use trade_reconcile_system.Models.Account.{Idempotent, being_processed}
use trade_reconcile_system.Models.Order.{CreateOrderReq, Order, Product, on_sale}
use trade_reconcile_system.Models.Result.{Result, ok}
use trade_reconcile_system.OrderService.{
  body, build_idempotent_record, caught, create_order, create_order_api_path, db_time,
  db_time_after, executed, idempotent_expire_minutes, in_range, new_order, order_expire_minutes,
  place, proceed, record_order, snapshot, take_stock,
}
use trade_reconcile_system.OrderService.Replay.{FitsKey, key_fits}

-- The steps on a world where no statement fails, each with what it needs.
acquires :
    (i : Idempotent) (w : World)
    → fits_idempotent i ≡ true
    → find (has_request_id i.request_id) w.working.idempotents ≡ none
    → try_acquire i (record w { faults = [] }) ≡ (
      done acquired,
      record w {
        working = record w.working { idempotents = w.working.idempotents ++ acquired_row i ∷ [] };
        faults = [];
      },
    )
unfolding try_acquire insert_idempotent exec exec_on in_transaction ◌>>=◌ resume pure
acquires i w fits absent = rw (fits, absent)

not_zero : {n : ℕ} → 0 < n → not (n == 0) ≡ true
not_zero h = ground arith

takes :
    (req : CreateOrderReq) (w : World) (p : Product)
    → find_product req.product_id w.working ≡ some p
    → on_sale p ≡ true
    → 0 < count_where (deductible req.product_id req.quantity) w.working.products
    → take_stock req (record w { faults = [] }) ≡ (
      done p,
      record w {
        working = record w.working {
          products = deduct_products req.product_id req.quantity w.working.products;
        };
        faults = [];
      },
    )
unfolding take_stock get_by_id deduct_stock exec exec_on in_transaction ◌>>=◌ ◌>>◌ resume pure
    or_throw require
takes req w p found sale stock = rw (found, sale, not_zero stock)

records :
    (env : Env) (req : CreateOrderReq) (o : Order) (w : World)
    → fits_order (order_row o) ≡ true
    → find (clashes (order_row o)) w.working.orders ≡ none
    → record_order env req o (record w { faults = [] }) ≡ (
      done o,
      record w {
        working = record w.working {
          orders = w.working.orders ++ order_row o ∷ [];
          idempotents =
              mark_rows req.request_id (snapshot env o req.request_id) w.working.idempotents;
        };
        faults = [];
      },
    )
unfolding record_order insert_order insert_row mark_success exec exec_on in_transaction ◌>>=◌ ◌>>◌
    resume pure
records env req o w fits absent = rw (fits, absent)

-- The order of a request, from the generator's number and the clock after it.
abbrev pub order_at : Env → CreateOrderReq → Product → ℕ → Generator → Order
order_at env req p n g =
    new_order req p (id_text n) (db_time (env.clock g.readings) order_expire_minutes)

places :
    (env : Env) (req : CreateOrderReq) (w : World) (p : Product) (n : ℕ) (g : Generator)
    → find_product req.product_id w.working ≡ some p
    → on_sale p ≡ true
    → 0 < count_where (deductible req.product_id req.quantity) w.working.products
    → next_number env.rounds env.clock w.generator ≡ generated n g
    → fits_order (order_row (order_at env req p n g)) ≡ true
    → find (clashes (order_row (order_at env req p n g))) w.working.orders ≡ none
    → place env req (record w { faults = [] }) ≡ (
      done (order_at env req p n g),
      record w {
        working = record w.working {
          products = deduct_products req.product_id req.quantity w.working.products;
          orders = w.working.orders ++ order_row (order_at env req p n g) ∷ [];
          idempotents =
              mark_rows req.request_id
                (snapshot env (order_at env req p n g) req.request_id)
                w.working.idempotents;
        };
        generator = record g { readings = g.readings + 1 };
        faults = [];
      },
    )
unfolding place next_id store_generated db_time_after read_clock ◌>>=◌ ◌>>◌ resume pure
places env req w p n g found sale stock issued fits absent =
    let taken : World = record w {
      working = record w.working {
        products = deduct_products req.product_id req.quantity w.working.products;
      };
      generator = record g { readings = g.readings + 1 };
    } in
    rw (takes req w p found sale stock)
      (rw issued (records env req (order_at env req p n g) taken fits absent))

-- When the quantity is in range, the request new, the product on sale with stock for the quantity,
-- the id generator gives a number whose order fits its table, and no statement fails, `createOrder`
-- answers with the order: the product's price at that moment, the new number, the expiry after
-- thirty minutes.
pub create_order-succeeds :
    (env : Env) (req : CreateOrderReq) (w : World) (p : Product) (n : ℕ) (g : Generator)
    → in_range req.quantity ≡ true
    → FitsKey req
    → find_idempotent req.request_id w.committed ≡ none
    → find_product req.product_id w.committed ≡ some p
    → on_sale p ≡ true
    → 0 < count_where (deductible req.product_id req.quantity) w.committed.products
    → next_number env.rounds env.clock (record w.generator { readings = w.generator.readings + 1 })
      ≡ generated n g
    → fits_order (order_row (order_at env req p n g)) ≡ true
    → find (clashes (order_row (order_at env req p n g))) w.committed.orders ≡ none
    → (create_order env req (record w { faults = [] })).0
      ≡ done (executed (Result.ok (order_at env req p n g) req.request_id))
unfolding create_order caught transaction body build_idempotent_record proceed db_time_after
    read_clock exec exec_on in_transaction pure begin_transaction guard_exit find_idempotent
    find_product commit ◌>>=◌ ◌>>◌ resume
create_order-succeeds env req w p n g ranged (a, b, c) new found sale stock issued fits absent =
    let i : Idempotent = record {
      request_id = req.request_id;
      user_id = req.user_id;
      api_path = create_order_api_path;
      request_hash = req.request_hash;
      response_body = [];
      status = being_processed;
      expire_time = db_time (env.clock w.generator.readings) idempotent_expire_minutes;
    } in
    let u : World = record w {
      working = w.committed;
      finished = false;
      generator = record w.generator { readings = w.generator.readings + 1 };
    } in
    let v : World = record u {
      working = record w.committed { idempotents = w.committed.idempotents ++ acquired_row i ∷ [] };
    } in
    let acquired_first = acquires i u (key_fits i a b (omega arith) c) new in
    let placed = places env req v p n g found sale stock issued fits absent in
    rw ranged (rw acquired_first (rw placed refl))
