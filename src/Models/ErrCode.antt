-- ===== src/Models/ErrCode.antt =====
-- src/common/ErrorCode.h
use trade_reconcile_system.Base.{Bool, String, false, true, ℕ}

pub data ErrCode : Type 0 where
  success : ErrCode
  param_invalid missing_request_id duplicate_request not_found : ErrCode
  account_not_found balance_not_enough : ErrCode
  product_not_found stock_not_enough : ErrCode
  order_not_found order_status_invalid : ErrCode
  sign_verify_failed amount_mismatched channel_trade_conflict unsupported_channel : ErrCode
  reconcile_batch_not_found reconcile_batch_status_invalid : ErrCode
  reconcile_diff_already_handled reconcile_bill_parse_failed : ErrCode
  db_error internal_error : ErrCode

-- static_cast<int>
unfoldable pub int_code : ErrCode → ℕ
int_code success = 0
int_code param_invalid = 10001
int_code missing_request_id = 10002
int_code duplicate_request = 10003
int_code not_found = 10004
int_code account_not_found = 20001
int_code balance_not_enough = 20002
int_code product_not_found = 30001
int_code stock_not_enough = 30002
int_code order_not_found = 40001
int_code order_status_invalid = 40002
int_code sign_verify_failed = 50001
int_code amount_mismatched = 50002
int_code channel_trade_conflict = 50003
int_code unsupported_channel = 50004
int_code reconcile_batch_not_found = 70001
int_code reconcile_batch_status_invalid = 70002
int_code reconcile_diff_already_handled = 70003
int_code reconcile_bill_parse_failed = 70004
int_code db_error = 90001
int_code internal_error = 90003

-- `toMessage`, for the values of the enumeration.
unfoldable pub to_message : ErrCode → String
to_message success = "成功"
to_message param_invalid = "参数校验失败"
to_message missing_request_id = "缺少或非法的 X-Request-Id"
to_message duplicate_request = "重复请求，请稍后重试"
to_message not_found = "资源不存在"
to_message account_not_found = "账户不存在"
to_message balance_not_enough = "余额不足"
to_message product_not_found = "商品不存在"
to_message stock_not_enough = "库存不足"
to_message order_not_found = "订单不存在"
to_message order_status_invalid = "订单状态不允许此操作"
to_message sign_verify_failed = "签名校验失败"
to_message amount_mismatched = "支付金额与订单金额不一致"
to_message channel_trade_conflict = "渠道交易号已绑定其他订单"
to_message unsupported_channel = "不支持的支付渠道"
to_message reconcile_batch_not_found = "对账批次不存在"
to_message reconcile_batch_status_invalid = "该日期已对账或批次状态不允许此操作"
to_message reconcile_diff_already_handled = "差异记录已处理过"
to_message reconcile_bill_parse_failed = "账单文件不存在或解析失败"
to_message db_error = "系统繁忙，请稍后重试"
to_message internal_error = "系统内部错误"

unfoldable pub is_success : ErrCode → Bool
is_success success = true
is_success _ = false
