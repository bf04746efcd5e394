-- ===== src/Models/Payment.antt =====
-- src/models/Payment.h and src/models/LocalMessage.h
use trade_reconcile_system.Base.{ℕ}
use trade_reconcile_system.Base.Bytes.{Bytes}
use trade_reconcile_system.Base.Int.{ℤ}

-- `Payment::Status`
pub data PaymentStatus : Type 0 where
  pending_pay success_pay failed_pay : PaymentStatus

unfoldable pub payment_status_code : PaymentStatus → ℕ
payment_status_code pending_pay = 0
payment_status_code success_pay = 1
payment_status_code failed_pay = 2

pub record Payment : Type 0 where
  pub payment_no : Bytes
  pub order_no : Bytes
  pub channel : Bytes
  pub channel_trade_no : Bytes
  pub amount_fen : ℤ
  pub status : PaymentStatus
  pub callback_time : Bytes
  pub raw_body : Bytes

pub record PaymentCallbackReq : Type 0 where
  pub request_id : Bytes
  pub order_no : Bytes
  pub channel : Bytes
  pub channel_trade_no : Bytes
  pub amount : Bytes
  pub timestamp : Bytes
  pub sign : Bytes

-- `LocalMessage::Status`
pub data MessageStatus : Type 0 where
  pending sent acked failed : MessageStatus

unfoldable pub message_status_code : MessageStatus → ℕ
message_status_code pending = 0
message_status_code sent = 1
message_status_code acked = 2
message_status_code failed = 3

pub record LocalMessage : Type 0 where
  pub message_id : Bytes
  pub biz_type : Bytes
  pub biz_id : Bytes
  pub exchange : Bytes
  pub routing_key : Bytes
  pub payload : Bytes
  pub status : MessageStatus
  pub retry_count : ℕ
  pub next_retry_time : Bytes
