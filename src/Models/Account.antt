-- ===== src/Models/Account.antt =====
-- src/models/Account.h and src/models/Idempotent.h
use trade_reconcile_system.Base.{ℕ}
use trade_reconcile_system.Base.Bytes.{Bytes}
use trade_reconcile_system.Base.Int.{ℤ}

pub record Account : Type 0 where
  pub account_no : Bytes
  pub user_id : ℕ
  pub balance_fen : ℤ
  pub frozen_amount_fen : ℤ
  pub status : ℕ

pub data FlowBizType : Type 0 where
  recharge payment refund freeze unfreeze : FlowBizType

unfoldable pub biz_type_code : FlowBizType → ℕ
biz_type_code recharge = 1
biz_type_code payment = 2
biz_type_code refund = 3
biz_type_code freeze = 4
biz_type_code unfreeze = 5

pub data FlowDirection : Type 0 where
  in_flow out_flow : FlowDirection

unfoldable pub direction_code : FlowDirection → ℕ
direction_code in_flow = 1
direction_code out_flow = 2

pub record AccountFlow : Type 0 where
  pub account_no : Bytes
  pub biz_type : FlowBizType
  pub direction : FlowDirection
  pub amount_fen : ℤ
  pub before_fen : ℤ
  pub after_fen : ℤ
  pub order_no : Bytes
  pub request_id : Bytes

-- `Idempotent::Status`
pub data IdempotentStatus : Type 0 where
  being_processed succeeded reserved_failure : IdempotentStatus

unfoldable pub idempotent_status_code : IdempotentStatus → ℕ
idempotent_status_code being_processed = 0
idempotent_status_code succeeded = 1
idempotent_status_code reserved_failure = 2

pub record Idempotent : Type 0 where
  pub request_id : Bytes
  pub user_id : ℕ
  pub api_path : Bytes
  pub request_hash : Bytes
  pub response_body : Bytes
  pub status : IdempotentStatus
  pub expire_time : Bytes
