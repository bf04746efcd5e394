-- ===== src/Db.antt =====
-- The tables of sql/schema.sql, as lists of rows in the order of their primary keys. The columns
-- created_at and updated_at, which no statement of the program reads, are left out. A DECIMAL(18,2)
-- column holds its value in fen, which is what `CAST(col * 100 AS SIGNED)` reads; a DATETIME column
-- holds its text "YYYY-MM-DD HH:MM:SS".
pub mod Text
pub mod Monad
use trade_reconcile_system.Base.{List, Option, ℕ}
use trade_reconcile_system.Base.Bytes.{Bytes}
use trade_reconcile_system.Base.Int.{ℤ}
use trade_reconcile_system.Models.Order.{OrderStatus}

pub record ProductRow : Type 0 where
  pub id : ℕ
  pub product_no : Bytes
  pub name : Bytes
  pub price : ℤ
  pub stock : ℕ
  pub version : ℕ
  pub status : ℕ

-- The status column holds the values of `OrderStatus`.
pub record OrderRow : Type 0 where
  pub order_no : Bytes
  pub request_id : Bytes
  pub user_id : ℕ
  pub product_id : ℕ
  pub quantity : ℤ
  pub unit_price : ℤ
  pub total_amount : ℤ
  pub status : OrderStatus
  pub expire_time : Bytes
  pub paid_at : Option Bytes

pub record IdempotentRow : Type 0 where
  pub request_id : Bytes
  pub user_id : ℕ
  pub api_path : Bytes
  pub request_hash : Bytes
  pub response_body : Bytes
  pub status : ℕ
  pub expire_time : Bytes

pub record AccountRow : Type 0 where
  pub account_no : Bytes
  pub user_id : ℕ
  pub balance : ℤ
  pub frozen_amount : ℤ
  pub version : ℕ
  pub status : ℕ

pub record AccountFlowRow : Type 0 where
  pub account_no : Bytes
  pub biz_type : ℕ
  pub direction : ℕ
  pub amount : ℤ
  pub before_balance : ℤ
  pub after_balance : ℤ
  pub order_no : Bytes
  pub request_id : Bytes

pub record PaymentRow : Type 0 where
  pub payment_no : Bytes
  pub order_no : Bytes
  pub channel : Bytes
  pub channel_trade_no : Bytes
  pub amount : ℤ
  pub status : ℕ
  pub callback_time : Bytes
  pub raw_body : Bytes

-- The retry time is in seconds of the database's clock.
pub record LocalMessageRow : Type 0 where
  pub message_id : Bytes
  pub biz_type : Bytes
  pub biz_id : Bytes
  pub exchange : Bytes
  pub routing_key : Bytes
  pub payload : Bytes
  pub status : ℕ
  pub retry_count : ℕ
  pub next_retry_time : ℕ

pub record NotifyRow : Type 0 where
  pub notify_no : Bytes
  pub order_no : Bytes
  pub target_url : Bytes
  pub response_body : Bytes
  pub status : ℕ
  pub retry_count : ℕ
  pub message_id : Bytes

pub record ReconcileBatchRow : Type 0 where
  pub batch_no : Bytes
  pub bill_date : Bytes
  pub channel : Bytes
  pub total_count : ℕ
  pub total_amount : ℤ
  pub channel_count : ℕ
  pub channel_amount : ℤ
  pub diff_count : ℕ
  pub status : ℕ

-- The ids count from 1 in the order of insertion; the gaps of rolled back inserts are left out.
pub record ReconcileDiffRow : Type 0 where
  pub id : ℕ
  pub batch_no : Bytes
  pub order_no : Bytes
  pub channel_trade_no : Bytes
  pub local_amount : ℤ
  pub channel_amount : ℤ
  pub diff_type : ℕ
  pub diff_amount : ℤ
  pub handle_status : ℕ
  pub handle_remark : Option Bytes
  pub handled_at : Option Bytes

pub record Db : Type 0 where
  pub products : List ProductRow
  pub orders : List OrderRow
  pub idempotents : List IdempotentRow
  pub accounts : List AccountRow
  pub flows : List AccountFlowRow
  pub payments : List PaymentRow
  pub messages : List LocalMessageRow
  pub notifies : List NotifyRow
  pub batches : List ReconcileBatchRow
  pub diffs : List ReconcileDiffRow
