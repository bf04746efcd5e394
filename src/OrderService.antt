-- ===== src/OrderService.antt =====
-- src/services/OrderService.cc: `createOrder`, one transaction.
use trade_reconcile_system.Models.Result
pub mod Keys
pub mod Steps
pub mod Atomic
pub mod Body
pub mod Refines
pub mod Replay
pub mod Succeeds
mod Tests
use trade_reconcile_system.Base.{Bool, String, [], if◌then◌else◌, not, ℕ, ◌*◌, ◌+◌, ◌/◌, ◌==◌, ◌||◌}
use trade_reconcile_system.Base.Bytes.{Bytes, codes}
use trade_reconcile_system.Base.Calendar.{format_time}
use trade_reconcile_system.Base.Int.{leb_ℤ, ltb_ℤ, pos, to_i64, ℤ, ◌*ℤ◌}
use trade_reconcile_system.Dao.Idempotent.{
  IdempotentOutcome, acquired, cached_success, mark_success, processing, try_acquire,
}
use trade_reconcile_system.Dao.Order.{insert_order}
use trade_reconcile_system.Dao.Product.{deduct_stock, get_by_id}
use trade_reconcile_system.Db.Monad.{
  Env, Exception, M, Outcome, World, biz, commit, db_exception, done, hang, next_id, or_throw, pure,
  read_clock, require, std_exception, thrown, transaction, ◌>>=◌, ◌>>◌,
}
use trade_reconcile_system.Models.Account.{Idempotent, being_processed}
use trade_reconcile_system.Models.ErrCode.{
  ErrCode, db_error, duplicate_request, internal_error, param_invalid, product_not_found,
  stock_not_enough, to_message,
}
use trade_reconcile_system.Models.Order.{
  CreateOrderReq, Order, Product, on_sale, order_to_json, pending_payment,
}
use trade_reconcile_system.Models.Result.{Result, fail, ok, to_json}

abbrev pub create_order_api_path : Bytes
create_order_api_path = codes "/api/v1/orders"

abbrev pub max_quantity : ℤ
max_quantity = pos 999

abbrev pub order_expire_minutes : ℕ
order_expire_minutes = 30

abbrev pub idempotent_expire_minutes : ℕ
idempotent_expire_minutes = 24 * 60

-- `CreateOrderOutcome`: a result of this run, or the stored body of the first successful one.
pub data CreateOrderOutcome : Type 0 where
  executed : Result Order → CreateOrderOutcome
  cached : Bytes → CreateOrderOutcome

-- Beijing time, some minutes after a time in milliseconds.
unfoldable pub db_time : ℕ → ℕ → Bytes
db_time now_ms minutes = format_time (pos ((now_ms + minutes * 60000 + 8 * 3600000) / 1000))

unfoldable pub db_time_after : Env → ℕ → M Bytes
unfolding db_time
db_time_after env minutes = do now_ms ← read_clock env; pure (db_time now_ms minutes)

unfoldable pub build_idempotent_record : Env → CreateOrderReq → M Idempotent
unfolding db_time_after
build_idempotent_record env req = do
  expire_time ← db_time_after env idempotent_expire_minutes
  pure (record {
    request_id = req.request_id;
    user_id = req.user_id;
    api_path = create_order_api_path;
    request_hash = req.request_hash;
    response_body = [];
    status = being_processed;
    expire_time = expire_time;
  })

abbrev pub failed : ErrCode → String → CreateOrderReq → CreateOrderOutcome
failed code message req = executed (Result.fail code message req.request_id)

-- Step 4: the order with the price at this moment; the product of two int64_t wraps.
unfoldable pub new_order : CreateOrderReq → Product → Bytes → Bytes → Order
new_order req product order_no expire_time = record {
  order_no = order_no;
  request_id = req.request_id;
  user_id = req.user_id;
  product_id = req.product_id;
  quantity = req.quantity;
  unit_price_fen = product.price_fen;
  total_amount_fen = to_i64 (product.price_fen *ℤ req.quantity);
  status = pending_payment;
  expire_time = expire_time;
  paid_at = [];
}

-- Step 5: the compact text of the response.
unfoldable pub snapshot : Env → Order → Bytes → Bytes
snapshot env order request_id =
    env.write_compact (Result.to_json order_to_json (Result.ok order request_id))

-- Steps 2 and 3: the product is there and on sale, and its stock is taken.
unfoldable pub take_stock : CreateOrderReq → M Product
unfolding get_by_id deduct_stock
take_stock req = do
  found ← get_by_id req.product_id
  product ← or_throw found (biz product_not_found "商品不存在")
  require (on_sale product) (biz product_not_found "商品已下架")
  affected ← deduct_stock req.product_id req.quantity
  require (not (affected == 0)) (biz stock_not_enough "库存不足")
  pure product

unfoldable pub record_order : Env → CreateOrderReq → Order → M Order
unfolding insert_order mark_success
record_order env req order = do
  insert_order order
  mark_success req.request_id (snapshot env order req.request_id)
  pure order

-- Steps 2 to 5, for the request that got the idempotent key.
unfoldable pub place : Env → CreateOrderReq → M Order
unfolding take_stock record_order db_time_after next_id
place env req = do
  product ← take_stock req
  order_no ← next_id env
  expire_time ← db_time_after env order_expire_minutes
  record_order env req (new_order req product order_no expire_time)

-- The rest of the transaction, on the outcome of step 1.
unfoldable pub proceed : Env → CreateOrderReq → IdempotentOutcome → M CreateOrderOutcome
unfolding place commit
proceed env req (cached_success body) = pure (cached body)
proceed env req processing = pure (failed duplicate_request (to_message duplicate_request) req)
proceed env req acquired = do
  order ← place env req
  commit
  pure (executed (Result.ok order req.request_id))

unfoldable pub body : Env → CreateOrderReq → M CreateOrderOutcome
unfolding build_idempotent_record try_acquire proceed
body env req = do
  i ← build_idempotent_record env req
  outcome ← try_acquire i
  proceed env req outcome

-- The `catch` clauses.
unfoldable pub answer_of : CreateOrderReq → Exception → CreateOrderOutcome
answer_of req (biz code message) = failed code message req
answer_of req db_exception = failed db_error (to_message db_error) req
answer_of req std_exception = failed internal_error (to_message internal_error) req

unfoldable pub caught :
    CreateOrderReq → Outcome CreateOrderOutcome × World → Outcome CreateOrderOutcome × World
unfolding answer_of
caught req (done o, w) = (done o, w)
caught req (thrown e, w) = (done (answer_of req e), w)
caught req (hang, w) = (hang, w)

unfoldable pub in_range : ℤ → Bool
in_range quantity = not (leb_ℤ quantity (pos 0) || ltb_ℤ max_quantity quantity)

unfoldable pub create_order : Env → CreateOrderReq → M CreateOrderOutcome
unfolding in_range caught transaction body
create_order env req w =
    if in_range req.quantity
    then caught req (transaction (body env req) w)
    else (done (failed param_invalid "购买数量必须在 1~999 之间" req), w)
