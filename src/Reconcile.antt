-- ===== src/Reconcile.antt =====
-- src/models/Reconcile.h, and the reconciliation of src/services/ReconcileService.cc below it.
pub mod Classify
use trade_reconcile_system.Base.{ℕ}
use trade_reconcile_system.Base.Bytes.{Bytes}
use trade_reconcile_system.Base.Int.{pos, ℤ}
use trade_reconcile_system.Models.Json.{Json, end, member, number, object, text}
use trade_reconcile_system.Money.{fen_to_yuan_string}

pub data ReconcileDiffType : Type 0 where
  local_only channel_only amount_mismatch : ReconcileDiffType

-- static_cast<int>
unfoldable pub diff_type_code : ReconcileDiffType → ℕ
diff_type_code local_only = 1
diff_type_code channel_only = 2
diff_type_code amount_mismatch = 3

pub record ReconcileSideRow : Type 0 where
  pub channel_trade_no : Bytes
  pub order_no : Bytes
  pub amount_fen : ℤ

-- `ReconcileDiff::HandleStatus`
pub data HandleStatus : Type 0 where
  to_handle verified ignored : HandleStatus

unfoldable pub handle_status_code : HandleStatus → ℕ
handle_status_code to_handle = 0
handle_status_code verified = 1
handle_status_code ignored = 2

pub record ReconcileDiff : Type 0 where
  pub batch_no : Bytes
  pub order_no : Bytes
  pub channel_trade_no : Bytes
  pub local_amount_fen : ℤ
  pub channel_amount_fen : ℤ
  pub diff_type : ReconcileDiffType
  pub diff_amount_fen : ℤ
  pub handle_status : HandleStatus
  pub handle_remark : Bytes
  pub handled_at : Bytes

-- `ReconcileDiff::toJson`
unfoldable pub diff_to_json : ReconcileDiff → Json
diff_to_json d = object (
    member "batchNo" (text d.batch_no) (
      member "orderNo" (text d.order_no) (
        member "channelTradeNo" (text d.channel_trade_no) (
          member "localAmount" (text (fen_to_yuan_string d.local_amount_fen)) (
            member "channelAmount" (text (fen_to_yuan_string d.channel_amount_fen)) (
              member "diffType" (number (pos (diff_type_code d.diff_type))) (
                member "diffAmount" (text (fen_to_yuan_string d.diff_amount_fen)) (
                  member "handleStatus" (number (pos (handle_status_code d.handle_status))) (
                    member "handleRemark" (text d.handle_remark)
                      (member "handledAt" (text d.handled_at) end))))))))))

-- `ReconcileBatch::Status`
pub data BatchStatus : Type 0 where
  in_process balanced has_diff failed_batch : BatchStatus

unfoldable pub batch_status_code : BatchStatus → ℕ
batch_status_code in_process = 0
batch_status_code balanced = 1
batch_status_code has_diff = 2
batch_status_code failed_batch = 3

pub record ReconcileBatch : Type 0 where
  pub batch_no : Bytes
  pub bill_date : Bytes
  pub channel : Bytes
  pub total_count : ℕ
  pub total_amount_fen : ℤ
  pub channel_count : ℕ
  pub channel_amount_fen : ℤ
  pub diff_count : ℕ
  pub status : BatchStatus

-- `ReconcileBatch::toJson`
unfoldable pub batch_to_json : ReconcileBatch → Json
unfolding fen_to_yuan_string batch_status_code
batch_to_json b = object (
    member "batchNo" (text b.batch_no) (
      member "billDate" (text b.bill_date) (
        member "channel" (text b.channel) (
          member "totalCount" (number (pos b.total_count)) (
            member "totalAmount" (text (fen_to_yuan_string b.total_amount_fen)) (
              member "channelCount" (number (pos b.channel_count)) (
                member "channelAmount" (text (fen_to_yuan_string b.channel_amount_fen)) (
                  member "diffCount" (number (pos b.diff_count))
                    (member "status" (number (pos (batch_status_code b.status))) end)))))))))
