-- ===== src/Channel.antt =====
-- src/services/PaymentService.cc: the configuration of a callback's channel, its time and its signature.
use mathlib.Core.Option
use trade_reconcile_system.Base.{Bool, Option, [], length, none, not, some, ◌&&◌, ◌*◌, ◌==◌}
use trade_reconcile_system.Base.Bytes.{Bytes, codes}
use trade_reconcile_system.Base.Calendar.{format_time}
use trade_reconcile_system.Base.Int.{pos, to_i64, ◌+ℤ◌}
use trade_reconcile_system.Models.Payment.{PaymentCallbackReq}
use trade_reconcile_system.Sign.{verify_mock_sign}
use trade_reconcile_system.Stoll.{stoll}

pub record Settings : Type 0 where
  pub hmac : Bytes → Bytes → Bytes
  pub secret : Option Bytes
  pub exchange : Option Bytes
  pub routing_key_notify : Option Bytes

-- `configValue`, on a value of the configuration that may be missing.
unfoldable pub config_value : Option Bytes → Bytes → Bytes
config_value none fallback = fallback
config_value (some value) fallback = value

abbrev pub supported_channel : Bytes
supported_channel = codes "MOCK"

abbrev pub biz_type_order_paid : Bytes
biz_type_order_paid = codes "ORDER_PAID"

-- Of a time past the range of int64_t, which is undefined, the model keeps the wrapped value.
unfoldable pub epoch_to_beijing : Bytes → Option Bytes
unfolding stoll
epoch_to_beijing epoch_seconds =
    Option.map (λ t. format_time (to_i64 (t +ℤ pos (8 * 3600)))) (stoll epoch_seconds)

unfoldable pub signed_by_channel : Settings → PaymentCallbackReq → Bool
unfolding config_value verify_mock_sign
signed_by_channel settings req =
    let secret = config_value settings.secret [] in
    not (length secret == 0)
    && verify_mock_sign settings.hmac secret req.order_no req.channel_trade_no req.amount
        req.timestamp req.sign
