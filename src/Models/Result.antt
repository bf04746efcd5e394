-- ===== src/Models/Result.antt =====
-- src/models/Result.h: the body that every interface answers.
use trade_reconcile_system.Base.{Bool, Option, String, none, some, ℕ, ◌==◌}
use trade_reconcile_system.Base.Bytes.{Bytes}
use trade_reconcile_system.Base.Int.{pos}
use trade_reconcile_system.Models.ErrCode.{ErrCode, int_code, success, to_message}
use trade_reconcile_system.Models.Json.{Json, end, member, null, number, object, phrase, text}

pub record Result {ℓ} (A : Type ℓ) : Type ℓ where
  pub code : ℕ
  pub message : String
  pub payload : Option A
  pub request_id : Bytes

module _ {ℓ} {A : Type ℓ} where
  -- `Result::ok` by way of `makeOk`
  unfoldable pub ok : A → Bytes → Result A
  unfolding int_code to_message
  ok value request_id = record {
    code = int_code success;
    message = to_message success;
    payload = some value;
    request_id = request_id;
  }

  unfoldable pub fail : ErrCode → String → Bytes → Result A
  unfolding int_code
  fail code message request_id = record {
    code = int_code code;
    message = message;
    payload = none;
    request_id = request_id;
  }

  unfoldable pub is_ok : Result A → Bool
  unfolding int_code
  is_ok r = r.code == int_code success

  -- `toJson`, with the payload's own conversion.
  unfoldable pub to_json : (A → Json) → Result A → Json
  to_json f r = object (
      member "code" (number (pos r.code)) (
        member "message" (phrase r.message) (
          member "requestId" (text r.request_id)
            (member "data" (elim r.payload [ none ↦ null | some a ↦ f a ]) end))))
