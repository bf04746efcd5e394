-- ===== src/PaymentService/Unsigned.antt =====
-- The guards of `handleCallback` in front of the transaction.
use trade_reconcile_system.Models.Result
use trade_reconcile_system.Base.{
  Bool-cases, Option, [], and_true, ap, arith, if◌then◌else◌, inl, inr, length, none, not, refl,
  some, sym, true, ℕ, ◌++◌, ◌==◌, ◌∷◌, ◌≡◌, ◌≢◌,
}
use trade_reconcile_system.Base.Bytes.{Bytes, codes, str_eq, str_eq→eq}
use trade_reconcile_system.Channel.{Settings, config_value, signed_by_channel, supported_channel}
use trade_reconcile_system.Db.Monad.{Env, Outcome, World, done}
use trade_reconcile_system.Models.ErrCode.{int_code, sign_verify_failed, unsupported_channel}
use trade_reconcile_system.Models.Json.{Json}
use trade_reconcile_system.Models.Payment.{PaymentCallbackReq}
use trade_reconcile_system.Models.Result.{Result, fail, ok}
use trade_reconcile_system.PaymentService.{handle_callback, paid_answer}
use trade_reconcile_system.Sign.{canonical, hmac_sha256_hex, to_hex, verify_mock_sign}

-- The request is of the channel MOCK, and its signature is the lower-case hexadecimal HMAC, under the
-- configured secret, which is not empty, of the order number, the trade number, the amount and the time
-- with bars between them.
pub record IsSigned (settings : Settings) (req : PaymentCallbackReq) : Type 0 where
  pub secret : Bytes
  pub on_channel : req.channel ≡ codes "MOCK"
  pub configured : settings.secret ≡ some secret
  pub not_empty : secret ≢ []
  pub signature :
      req.sign
      ≡ to_hex (
          settings.hmac secret (
            req.order_no
            ++ b'|' ∷ req.channel_trade_no
            ++ b'|' ∷ req.amount
            ++ b'|' ∷ req.timestamp))

configured-some :
    (secret : Option Bytes) {key : Bytes}
    → config_value secret [] ≡ key
    → key ≢ []
    → secret ≡ some key
unfolding config_value
configured-some none e h = absurd (h (sym e))
configured-some (some key) e h = ap some e

length-ne_nil : (key : Bytes) → not (length key == 0) ≡ true → key ≢ []
length-ne_nil [] h e = cc
length-ne_nil (c ∷ key) h e = cc

verify_mock_sign_sound :
    (hmac : Bytes → Bytes → Bytes) (secret order_no channel_trade_no amount timestamp sign : Bytes)
    → verify_mock_sign hmac secret order_no channel_trade_no amount timestamp sign ≡ true
    → sign
      ≡ to_hex
          (hmac secret (order_no ++ b'|' ∷ channel_trade_no ++ b'|' ∷ amount ++ b'|' ∷ timestamp))
unfolding verify_mock_sign hmac_sha256_hex canonical
verify_mock_sign_sound hmac secret order_no channel_trade_no amount timestamp sign h =
    sym (str_eq→eq _ sign (ground arith))

-- The two guards let signed requests pass only.
pub guards-IsSigned :
    (settings : Settings) (req : PaymentCallbackReq)
    → str_eq req.channel supported_channel ≡ true
    → signed_by_channel settings req ≡ true
    → IsSigned settings req
unfolding signed_by_channel
guards-IsSigned settings req mock good =
    let secret = config_value settings.secret [] in
    let (there, checked) = and_true (not (length secret == 0)) good in
    let not_empty = length-ne_nil secret there in
    record {
      secret = secret;
      on_channel = str_eq→eq req.channel supported_channel mock;
      configured = configured-some settings.secret refl not_empty;
      not_empty = not_empty;
      signature = verify_mock_sign_sound settings.hmac secret _ _ _ _ req.sign checked;
    }

answer_code : Outcome (Result Json) → ℕ
answer_code (done r) = r.code
answer_code _ = 0

-- The refusal of a request: its code says whether the channel or the signature is wrong.
abbrev pub refused_by_guards : PaymentCallbackReq → Result Json
refused_by_guards req =
    if str_eq req.channel (codes "MOCK")
    then Result.fail sign_verify_failed "签名校验失败" req.request_id
    else Result.fail unsupported_channel "不支持的支付渠道" req.request_id

-- A callback that is not signed, that is, of another channel, under a secret that is missing or empty, or
-- with another text than the HMAC of its fields for a signature, changes nothing at all: the world is the
-- same, and the answer refuses the channel or, on the right channel, the signature.
pub handle_callback-unsigned :
    (env : Env) (settings : Settings) (req : PaymentCallbackReq) (raw_body : Bytes) (w : World)
    → ¬ IsSigned settings req
    → handle_callback env settings req raw_body w ≡ (done (refused_by_guards req), w)
unfolding handle_callback
handle_callback-unsigned env settings req raw_body w unsigned =
    elim (Bool-cases (str_eq req.channel supported_channel)) [
      | inr other ↦ rw other refl
      | inl mock ↦ elim (Bool-cases (signed_by_channel settings req)) [
        | inl good ↦ absurd (unsigned (guards-IsSigned settings req mock good))
        | inr bad ↦ rw (mock, bad) refl
      ]
    ]

-- A callback whose payment is confirmed is signed.
pub paid-IsSigned :
    (env : Env) (settings : Settings) (req : PaymentCallbackReq) (raw_body : Bytes) (w : World)
    → (handle_callback env settings req raw_body w).0 ≡ done (paid_answer req)
    → IsSigned settings req
unfolding handle_callback paid_answer answer_code Result.ok Result.fail int_code
paid-IsSigned env settings req raw_body w told =
    elim (Bool-cases (str_eq req.channel supported_channel)) [
      | inr other ↦ cc (ap answer_code (rw (other, handle_callback) at told))
      | inl mock ↦ elim (Bool-cases (signed_by_channel settings req)) [
        | inl good ↦ guards-IsSigned settings req mock good
        | inr bad ↦ cc (ap answer_code (rw (mock, bad, handle_callback) at told))
      ]
    ]
