-- ===== src/Dao/Product/Stock.antt =====
-- The stock of the shop under `deductStock`.
use trade_reconcile_system.Base.{
  Bool-cases, List, [], arith, count_where, inl, inr, suc, true, update_where, ℕ, ◌*◌, ◌+◌, ◌∷◌,
  ◌≡◌,
}
use trade_reconcile_system.Base.Int.{pos, ◌-ℤ◌}
use trade_reconcile_system.Dao.Product.{deduct_products, deducted, deductible}
use trade_reconcile_system.Db.{ProductRow}

abbrev pub total_stock : List ProductRow → ℕ
total_stock [] = 0
total_stock (r ∷ rows) = r.stock + total_stock rows

deducted-stock :
    (product_id quantity : ℕ) (r : ProductRow)
    → deductible product_id (pos quantity) r ≡ true
    → (deducted (pos quantity) r).stock + quantity ≡ r.stock
unfolding deductible deducted ◌-ℤ◌
deducted-stock product_id quantity r h = ground arith

mul-suc : (m n : ℕ) → m * suc n ≡ m + m * n
mul-suc m n = omega arith

-- Deducting a quantity takes exactly that much out of the total stock for each row it changes, so
-- no stock falls below 0 and none is lost.
pub deduct_products-total_stock :
    (product_id quantity : ℕ) (rows : List ProductRow)
    → total_stock (deduct_products product_id (pos quantity) rows)
        + quantity * count_where (deductible product_id (pos quantity)) rows
      ≡ total_stock rows
unfolding deduct_products update_where count_where
deduct_products-total_stock product_id quantity [] = omega arith
deduct_products-total_stock product_id quantity (r ∷ rows) =
    elim (Bool-cases (deductible product_id (pos quantity) r)) [
      | inl hit ↦ rw hit (
          omega (
            arith,
            deducted-stock product_id quantity r hit,
            deduct_products-total_stock product_id quantity rows,
            mul-suc quantity (count_where (deductible product_id (pos quantity)) rows),
          ))
      | inr miss ↦ rw miss (omega (arith, deduct_products-total_stock product_id quantity rows))
    ]
