-- ===== src/OrderService/Steps.antt =====
-- `place`, the part of `createOrder` behind the idempotent key, when it returns.
use mathlib.Core.Path.{subst}
use trade_reconcile_system.Base.{
  [], absent_then, ap, arith, count_where, find, guarded, not, some, sym, true, ℕ, ◌++◌, ◌<◌, ◌==◌,
  ◌∙◌, ◌∷◌, ◌≡◌,
}
use trade_reconcile_system.Base.Bytes.{Bytes}
use trade_reconcile_system.Dao.Idempotent.{mark_rows, mark_success}
use trade_reconcile_system.Dao.Order.{clashes, fits_order, insert_order, insert_row, order_row}
use trade_reconcile_system.Dao.Product.{
  deduct_products, deduct_stock, deductible, find_product, get_by_id,
}
use trade_reconcile_system.Db.{Db, OrderRow}
use trade_reconcile_system.Db.Monad.{Env, World, done, read_clock}
use trade_reconcile_system.Db.Monad.Returns.{
  >>-done, >>=-done, exec-done, next_id-done, or_throw-done, pure-done, query-done, read_clock-done,
  require-done, update-done,
}
use trade_reconcile_system.Models.Order.{CreateOrderReq, Order, Product, on_sale}
use trade_reconcile_system.OrderService.{
  db_time_after, new_order, order_expire_minutes, place, record_order, snapshot, take_stock,
}

pub db_time_after-done :
    (env : Env) (minutes : ℕ) (w : World) {t : Bytes} {w' : World}
    → db_time_after env minutes w ≡ (done t, w')
    → w'.working ≡ w.working
unfolding db_time_after
db_time_after-done env minutes w e =
    let (now, w1, e1, r1) = >>=-done (read_clock env) _ w e in
    (pure-done _ w1 r1).1 ∙ read_clock-done env w e1

insert_row-done :
    (r : OrderRow) (db : Db) {v : Unit {0}} {db' : Db}
    → insert_row r db ≡ some (v, db')
    → db' ≡ record db { orders = db.orders ++ r ∷ [] }
unfolding insert_row
insert_row-done r db e =
    let (fits, found) = guarded (fits_order r) e in
    let (absent, same) = absent_then (find (clashes r) db.orders) _ found in
    sym (ap (λ (q : Unit {0} × Db). q.1) same)

insert_order-done :
    (o : Order) (w : World) {u : Unit {0}} {w' : World}
    → insert_order o w ≡ (done u, w')
    → w'.working ≡ record w.working { orders = w.working.orders ++ order_row o ∷ [] }
unfolding insert_order
insert_order-done o w e = insert_row-done (order_row o) w.working (exec-done _ w e)

affected_some : {affected n : ℕ} → affected ≡ n → not (affected == 0) ≡ true → 0 < n
affected_some h k = ground arith

take_stock-done :
    (req : CreateOrderReq) (w : World) {p : Product} {w' : World}
    → take_stock req w ≡ (done p, w')
    → (find_product req.product_id w.working ≡ some p)
      × (on_sale p ≡ true)
      × (0 < count_where (deductible req.product_id req.quantity) w.working.products)
      × (w'.working ≡ record w.working {
        products = deduct_products req.product_id req.quantity w.working.products;
      })
unfolding take_stock get_by_id deduct_stock
take_stock-done req w {p} {w'} e =
    let (found, w1, e1, r1) = >>=-done _ _ w e in
    let (q, w2, e2, r2) = >>=-done _ _ w1 r1 in
    let (_, w3, e3, r3) = >>-done _ _ w2 r2 in
    let (affected, w4, e4, r4) = >>=-done _ _ w3 r3 in
    let (_, w5, e5, r5) = >>-done _ _ w4 r4 in
    let q1 = query-done (find_product req.product_id) w e1 in
    let q2 = or_throw-done found _ w1 e2 in
    let q3 = require-done (on_sale q) _ w2 e3 in
    let q4 = update-done _ _ w3 e4 in
    let q5 = require-done _ _ w4 e5 in
    let q6 = pure-done q w5 r5 in
    let before : w3.working ≡ w.working = q3.1 ∙ q2.1 ∙ q1.1 in
    (
      sym q1.0 ∙ q2.0 ∙ ap some q6.0,
      sym (ap on_sale q6.0) ∙ q3.0,
      subst (λ db. 0 < count_where (deductible req.product_id req.quantity) db.products) before
          (affected_some q4.0 q5.0),
      q6.1
          ∙ q5.1
          ∙ q4.1
          ∙ ap
              (λ (db : Db). record db {
                products = deduct_products req.product_id req.quantity db.products;
              })
              before,
    )

record_order-done :
    (env : Env) (req : CreateOrderReq) (o : Order) (w : World) {order : Order} {w' : World}
    → record_order env req o w ≡ (done order, w')
    → (o ≡ order)
      × (w'.working ≡ record w.working {
        orders = w.working.orders ++ order_row o ∷ [];
        idempotents =
            mark_rows req.request_id (snapshot env o req.request_id) w.working.idempotents;
      })
unfolding record_order mark_success
record_order-done env req o w {order} {w'} e =
    let (_, w1, e1, r1) = >>-done _ _ w e in
    let (_, w2, e2, r2) = >>-done _ _ w1 r1 in
    let q1 = insert_order-done o w e1 in
    let q2 = update-done _ _ w1 e2 in let q3 = pure-done o w2 r2 in (q3.0, rw (q3.1, q2.1, q1))

-- What `place` has done to the working database when it returns an order.
abbrev pub Placed : Env → CreateOrderReq → Db → Order → Db → Type 0
Placed env req db order db' =
    (p : Product) × (order_no : Bytes) × (expire_time : Bytes) × (find_product req.product_id db
      ≡ some p)
    × (on_sale p ≡ true)
    × (0 < count_where (deductible req.product_id req.quantity) db.products)
    × (order ≡ new_order req p order_no expire_time)
    × (db' ≡ record db {
      products = deduct_products req.product_id req.quantity db.products;
      orders = db.orders ++ order_row order ∷ [];
      idempotents = mark_rows req.request_id (snapshot env order req.request_id) db.idempotents;
    })

pub place-done :
    (env : Env) (req : CreateOrderReq) (w : World) {order : Order} {w' : World}
    → place env req w ≡ (done order, w')
    → Placed env req w.working order w'.working
unfolding place
place-done env req w {order} {w'} e =
    let (p, w1, e1, r1) = >>=-done _ _ w e in
    let (order_no, w2, e2, r2) = >>=-done _ _ w1 r1 in
    let (expire_time, w3, e3, r3) = >>=-done _ _ w2 r2 in
    let (found, sale, enough, taken) = take_stock-done req w e1 in
    let q2 = next_id-done env w1 e2 in
    let q3 = db_time_after-done env order_expire_minutes w2 e3 in
    let (same, inscribed) =
      record_order-done env req (new_order req p order_no expire_time) w3 r3 in
    (p, order_no, expire_time, found, sale, enough, sym same, rw (inscribed, q3, q2, taken, same))
