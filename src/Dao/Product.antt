-- ===== src/Dao/Product.antt =====
-- src/dao/ProductDao.cc
-- The WHERE clause of `deductStock`, and its SET clause.
pub mod Stock
use mathlib.Core.Option
use trade_reconcile_system.Base.{
  Bool, List, Option, count_where, find, map, some, update_where, ℕ, ◌&&◌, ◌+◌, ◌==◌,
}
use trade_reconcile_system.Base.Int.{leb_ℤ, pos, pos_part, ℤ, ◌-ℤ◌}
use trade_reconcile_system.Db.{Db, ProductRow}
use trade_reconcile_system.Db.Monad.{M, exec, query}
use trade_reconcile_system.Models.Order.{Product}

unfoldable pub deductible : ℕ → ℤ → ProductRow → Bool
deductible product_id quantity r =
    r.id == product_id && leb_ℤ quantity (pos r.stock) && r.status == 1

unfoldable pub deducted : ℤ → ProductRow → ProductRow
deducted quantity r = record r {
  stock = pos_part (pos r.stock -ℤ quantity);
  version = r.version + 1;
}

unfoldable pub deduct_products : ℕ → ℤ → List ProductRow → List ProductRow
unfolding deductible deducted
deduct_products product_id quantity =
    update_where (deductible product_id quantity) (deducted quantity)

unfoldable pub deduct_stock : ℕ → ℤ → M ℕ
unfolding deductible deduct_products
deduct_stock product_id quantity = exec λ db. some (
  count_where (deductible product_id quantity) db.products,
  record db { products = deduct_products product_id quantity db.products },
)

product_of_row : ProductRow → Product
product_of_row r = record {
  id = r.id;
  product_no = r.product_no;
  name = r.name;
  price_fen = r.price;
  stock = r.stock;
  status = r.status;
}

unfoldable pub find_product : ℕ → Db → Option Product
unfolding product_of_row
find_product product_id db = Option.map product_of_row (find (λ r. r.id == product_id) db.products)

unfoldable pub get_by_id : ℕ → M (Option Product)
get_by_id product_id = exec (query (find_product product_id))
