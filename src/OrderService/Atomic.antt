-- ===== src/OrderService/Atomic.antt =====
-- What `createOrder` may do to the committed database, and what its steps do to it.
use trade_reconcile_system.Models.Result
use trade_reconcile_system.Base.{
  Bool, [], ap, count_where, false, find, if◌then◌else◌, none, some, sym, true, ◌++◌, ◌<◌, ◌==◌,
  ◌∙◌, ◌∷◌, ◌≡◌, ◌≢◌, ◌⊎◌,
}
use trade_reconcile_system.Base.Bytes.{Bytes}
use trade_reconcile_system.Dao.Idempotent.{
  acquired, find_idempotent, has_request_id, mark_success, outcome_of, try_acquire,
}
use trade_reconcile_system.Dao.Order.{insert_order, order_row}
use trade_reconcile_system.Dao.Product.{
  deduct_products, deduct_stock, deductible, find_product, get_by_id,
}
use trade_reconcile_system.Db.{Db}
use trade_reconcile_system.Db.Monad.{
  Env, Exception, Outcome, World, done, exec, hang, pure, query, thrown, ◌>>=◌,
}
use trade_reconcile_system.Db.Monad.Laws.{
  >>-Keeps, >>=-Keeps, Keeps, exec-Keeps, next_id-Keeps, or_throw-Keeps, pure-Keeps,
  read_clock-Keeps, require-Keeps, throw-Keeps,
}
use trade_reconcile_system.Db.Monad.Returns.{>>=-done, pure-done}
use trade_reconcile_system.Models.Account.{Idempotent}
use trade_reconcile_system.Models.Order.{CreateOrderReq, Order, Product, on_sale}
use trade_reconcile_system.Models.Result.{Result, ok}
use trade_reconcile_system.OrderService.{
  CreateOrderOutcome, build_idempotent_record, db_time_after, executed, idempotent_expire_minutes,
  new_order, place, record_order, snapshot, take_stock,
}
use trade_reconcile_system.OrderService.Keys.{answered_row}
use trade_reconcile_system.OrderService.Steps.{db_time_after-done}

-- The specification of a placed order, on the database: the stock falls, the order is appended
-- unpaid, and the idempotent record is appended with the response.
unfoldable pub placed_db : Idempotent → Order → Bytes → Db → Db
placed_db i order response db = record db {
  products = deduct_products order.product_id order.quantity db.products;
  orders = db.orders ++ order_row order ∷ [];
  idempotents = db.idempotents ++ answered_row i response ∷ [];
}

-- What a call that places an order has found: no earlier record of the request, the product on
-- sale with enough stock, and the order with the product's price.
pub record Sold (req : CreateOrderReq) (db : Db) (i : Idempotent) (order : Order) : Type 0 where
  pub same_request : i.request_id ≡ req.request_id
  pub first_time : find (has_request_id req.request_id) db.idempotents ≡ none
  pub product : Product
  pub found : find_product req.product_id db ≡ some product
  pub is_on_sale : on_sale product ≡ true
  pub has_stock : 0 < count_where (deductible req.product_id req.quantity) db.products
  pub order_no : Bytes
  pub expire_time : Bytes
  pub priced : order ≡ new_order req product order_no expire_time

-- The call tells of no new order, and the committed database is what it was.
pub record Unchanged (req : CreateOrderReq) (db : Db) (r : Outcome CreateOrderOutcome × World)
    : Type 0 where
  pub kept : r.1.committed ≡ db
  pub untold : (order : Order) → r.0 ≢ done (executed (Result.ok order req.request_id))

-- The call answers with an order, and the committed database is the specified one.
pub record OrderPlaced (env : Env) (req : CreateOrderReq) (db : Db)
    (r : Outcome CreateOrderOutcome × World) : Type 0 where
  pub idempotent : Idempotent
  pub order : Order
  pub sold : Sold req db idempotent order
  pub told : r.0 ≡ done (executed (Result.ok order req.request_id))
  pub stored : r.1.committed ≡ placed_db idempotent order (snapshot env order req.request_id) db

abbrev pub Ends : Env → CreateOrderReq → Db → Outcome CreateOrderOutcome × World → Type 0
Ends env req db r = Unchanged req db r ⊎ OrderPlaced env req db r

ruleset keeping = (
  >>=-Keeps, >>-Keeps, pure-Keeps, throw-Keeps, require-Keeps, or_throw-Keeps, exec-Keeps,
  read_clock-Keeps, next_id-Keeps,
)

pub place-Keeps : (env : Env) (req : CreateOrderReq) → Keeps (place env req)
unfolding place take_stock record_order get_by_id deduct_stock insert_order mark_success
    db_time_after
place-Keeps env req = search keeping depth 14

pub build_idempotent_record-Keeps :
    (env : Env) (req : CreateOrderReq) → Keeps (build_idempotent_record env req)
unfolding build_idempotent_record db_time_after
build_idempotent_record-Keeps env req = search keeping depth 8

keyed-Keeps :
    (i : Idempotent) (b : Bool)
    → Keeps (
        if b
        then pure acquired
        else (exec (query (find_idempotent i.request_id)) >>= λ row. pure (outcome_of row)))
keyed-Keeps i true = search keeping
keyed-Keeps i false = search keeping

pub try_acquire-Keeps : (i : Idempotent) → Keeps (try_acquire i)
unfolding try_acquire
try_acquire-Keeps i = >>=-Keeps (exec-Keeps _) (λ affected. keyed-Keeps i (affected == 1))

-- A result of `build_idempotent_record` carries the request's id.
pub build_idempotent_record-done :
    (env : Env) (req : CreateOrderReq) (w : World) {i : Idempotent} {w' : World}
    → build_idempotent_record env req w ≡ (done i, w')
    → (i.request_id ≡ req.request_id) × (w'.working ≡ w.working)
unfolding build_idempotent_record
build_idempotent_record-done env req w e =
    let (t, u, e1, r1) = >>=-done _ _ w e in
    let q = pure-done _ u r1 in
    (
      sym (ap (λ (i : Idempotent). i.request_id) q.0),
      q.1 ∙ db_time_after-done env idempotent_expire_minutes w e1,
    )

pub thrown-Unchanged :
    (req : CreateOrderReq) (db : Db) (e : Exception) (u : World)
    → u.committed ≡ db
    → Unchanged req db (thrown e, u)
thrown-Unchanged req db e u h = record { kept = h; untold = λ order k. cc k }

pub hang-Unchanged :
    (req : CreateOrderReq) (db : Db) (u : World) → u.committed ≡ db → Unchanged req db (hang, u)
hang-Unchanged req db u h = record { kept = h; untold = λ order k. cc k }
