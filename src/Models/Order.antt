-- ===== src/Models/Order.antt =====
-- src/models/Order.h and src/models/Product.h
use trade_reconcile_system.Base.{Bool, ℕ, ◌==◌}
use trade_reconcile_system.Base.Bytes.{Bytes}
use trade_reconcile_system.Base.Int.{pos, ℤ}
use trade_reconcile_system.Models.Json.{Json, end, member, number, object, text}
use trade_reconcile_system.Money.{fen_to_yuan_string}

pub data OrderStatus : Type 0 where
  pending_payment paid completed cancelled refunded : OrderStatus

-- static_cast<int>
unfoldable pub status_code : OrderStatus → ℕ
status_code pending_payment = 0
status_code paid = 1
status_code completed = 2
status_code cancelled = 3
status_code refunded = 4

pub record Order : Type 0 where
  pub order_no : Bytes
  pub request_id : Bytes
  pub user_id : ℕ
  pub product_id : ℕ
  pub quantity : ℤ
  pub unit_price_fen : ℤ
  pub total_amount_fen : ℤ
  pub status : OrderStatus
  pub expire_time : Bytes
  pub paid_at : Bytes

-- `Order::toJson`
unfoldable pub order_to_json : Order → Json
unfolding status_code fen_to_yuan_string
order_to_json o = object (
    member "orderNo" (text o.order_no) (
      member "userId" (number (pos o.user_id)) (
        member "productId" (number (pos o.product_id)) (
          member "quantity" (number o.quantity) (
            member "unitPrice" (text (fen_to_yuan_string o.unit_price_fen)) (
              member "totalAmount" (text (fen_to_yuan_string o.total_amount_fen)) (
                member "status" (number (pos (status_code o.status)))
                  (member "expireTime" (text o.expire_time) end))))))))

pub record CreateOrderReq : Type 0 where
  pub request_id : Bytes
  pub request_hash : Bytes
  pub user_id : ℕ
  pub product_id : ℕ
  pub quantity : ℤ

pub record Product : Type 0 where
  pub id : ℕ
  pub product_no : Bytes
  pub name : Bytes
  pub price_fen : ℤ
  pub stock : ℕ
  pub status : ℕ

-- `Product::onSale`
unfoldable pub on_sale : Product → Bool
on_sale p = p.status == 1

-- `Product::toJson`
unfoldable pub product_to_json : Product → Json
unfolding fen_to_yuan_string
product_to_json p = object (
    member "productId" (number (pos p.id)) (
      member "productNo" (text p.product_no) (
        member "name" (text p.name) (
          member "price" (text (fen_to_yuan_string p.price_fen)) (
            member "stock" (number (pos p.stock)) (member "status" (number (pos p.status)) end))))))
