-- ===== src/Controllers/Pays.antt =====
-- The body of a payment callback that the handler submits.

use mathlib.Core.Path.{subst}
use trade_reconcile_system.Base.{
  Bool, Option, Option-cases, [], and_true, ap, false, inl, inr, none, not, refl, some, some_inj,
  true, ◌&&◌, ◌∙◌, ◌∷◌, ◌≡◌, ◌≢◌,
}
use trade_reconcile_system.Base.Bytes.{Bytes, codes}
use trade_reconcile_system.Base.Int.{ℤ}
use trade_reconcile_system.Controllers.{Handled, HttpRequest, Server, raises, submits_task}
use trade_reconcile_system.Controllers.Payments.{
  build_payment_req, handle_payment_callback, has_non_empty_string, int64_text, is_empty,
  payment_fields, payment_tests, tested_payment, text_of,
}
use trade_reconcile_system.Controllers.Validates.{
  all_hold-cons, guarded_task, mapped_true, submits-injective, then_true,
}
use trade_reconcile_system.Models.Payment.{PaymentCallbackReq}
use trade_reconcile_system.RequestId.{request_id_of}

module _ {J : Type 0} (server : Server J) where
  -- The member is a string that is not empty.
  pub record IsText (json : J) (key : Bytes) (s : Bytes) : Type 0 where
    pub is_there : server.reader.is_member json key ≡ true
    pub is_text : server.reader.is_string (server.reader.at json key) ≡ true
    pub value : server.reader.as_string (server.reader.at json key) ≡ some s
    pub not_empty : s ≢ []

  -- The request that the handler submits is the one of the body; the time is a number, in decimal.
  pub record IsPaymentOf (request : HttpRequest J) (req : PaymentCallbackReq) : Type 0 where
    pub json : J
    pub parsed : request.json ≡ some json
    pub order_no : IsText json (codes "orderNo") req.order_no
    pub channel : IsText json (codes "channel") req.channel
    pub trade_no : IsText json (codes "channelTradeNo") req.channel_trade_no
    pub amount : IsText json (codes "amount") req.amount
    pub sign : IsText json (codes "sign") req.sign
    pub seconds : ℤ
    pub has_time : server.reader.is_member json (codes "timestamp") ≡ true
    pub numeric : server.reader.is_numeric (server.reader.at json (codes "timestamp")) ≡ true
    pub time : server.reader.as_int64 (server.reader.at json (codes "timestamp")) ≡ some seconds
    pub same_time : req.timestamp ≡ int64_text seconds
    pub same_id : req.request_id ≡ request_id_of request.filtered

  is_empty-ne_nil : (s : Bytes) → not (is_empty s) ≡ true → s ≢ []
  unfolding is_empty
  is_empty-ne_nil [] h e = cc
  is_empty-ne_nil (c ∷ s) h e = cc

  has_non_empty_string-IsText :
      (json : J) (key : Bytes) (s : Bytes)
      → has_non_empty_string server json key ≡ some true
      → server.reader.as_string (server.reader.at json key) ≡ some s
      → IsText json key s
  unfolding has_non_empty_string
  has_non_empty_string-IsText json key s h e =
      let (there, converts) = then_true (server.reader.is_member json key && _) _ h in
      let (present, string) = and_true (server.reader.is_member json key) there in
      record {
        is_there = present;
        is_text = string;
        value = e;
        not_empty =
            is_empty-ne_nil s
              (mapped_true _ (server.reader.as_string (server.reader.at json key)) converts e);
      }

  -- The tests and the conversions of a body that is submitted.
  fields-IsPaymentOf :
      (request : HttpRequest J) (json : J) (a b c d : Option Bytes) (e : Option ℤ)
      (f : Option Bytes) (req : PaymentCallbackReq)
      → request.json ≡ some json
      → payment_tests server json ≡ some true
      → text_of server json (codes "orderNo") ≡ a
      → text_of server json (codes "channel") ≡ b
      → text_of server json (codes "channelTradeNo") ≡ c
      → text_of server json (codes "amount") ≡ d
      → server.reader.as_int64 (server.reader.at json (codes "timestamp")) ≡ e
      → text_of server json (codes "sign") ≡ f
      → build_payment_req (request_id_of request.filtered) a b c d e f ≡ some req
      → IsPaymentOf request req
  unfolding payment_tests build_payment_req text_of
  fields-IsPaymentOf request json (some a) (some b) (some c) (some d) (some e) (some f) req parsed
        tested ha hb hc hd he hf built =
      let (order, t1) = all_hold-cons _ _ tested in
      let (channel, t2) = all_hold-cons _ _ t1 in
      let (trade, t3) = all_hold-cons _ _ t2 in
      let (amount, t4) = all_hold-cons _ _ t3 in
      let (sign, t5) = all_hold-cons _ _ t4 in
      let (has_time, t6) = all_hold-cons _ _ t5 in
      let (numeric, t7) = all_hold-cons _ _ t6 in
      subst (λ r. IsPaymentOf request r) (some_inj built)
        (record {
          json = json;
          parsed = parsed;
          order_no = has_non_empty_string-IsText json _ a order ha;
          channel = has_non_empty_string-IsText json _ b channel hb;
          trade_no = has_non_empty_string-IsText json _ c trade hc;
          amount = has_non_empty_string-IsText json _ d amount hd;
          sign = has_non_empty_string-IsText json _ f sign hf;
          seconds = e;
          has_time = some_inj has_time;
          numeric = some_inj numeric;
          time = he;
          same_time = refl;
          same_id = refl;
        })
  fields-IsPaymentOf request json none b c d e f req parsed tested ha hb hc hd he hf built = cc
  fields-IsPaymentOf request json (some a) none c d e f req parsed tested ha hb hc hd he hf built =
      cc
  fields-IsPaymentOf request json (some a) (some b) none d e f req parsed tested ha hb hc hd he hf
        built =
      cc
  fields-IsPaymentOf request json (some a) (some b) (some c) none e f req parsed tested ha hb hc hd
        he hf built =
      cc
  fields-IsPaymentOf request json (some a) (some b) (some c) (some d) none f req parsed tested ha hb
        hc hd he hf built =
      cc
  fields-IsPaymentOf request json (some a) (some b) (some c) (some d) (some e) none req parsed
        tested ha hb hc hd he hf built =
      cc

  built-IsPaymentOf :
      (request : HttpRequest J) (json : J) (fields : Option PaymentCallbackReq)
      (req : PaymentCallbackReq)
      → request.json ≡ some json
      → payment_tests server json ≡ some true
      → payment_fields server (request_id_of request.filtered) json ≡ fields
      → ◌≡◌ {A = Handled PaymentCallbackReq}
          (elim fields [ none ↦ raises | some r ↦ submits_task r ])
          (submits_task req)
      → IsPaymentOf request req
  unfolding payment_fields
  built-IsPaymentOf request json none req parsed tested built h = cc
  built-IsPaymentOf request json (some r) req parsed tested built h =
      fields-IsPaymentOf request json _ _ _ _ _ _ req parsed tested refl refl refl refl refl refl
        (built ∙ ap some (submits-injective h))

  tested-IsPaymentOf :
      (request : HttpRequest J) (json : J) (test : Option Bool) (req : PaymentCallbackReq)
      → request.json ≡ some json
      → payment_tests server json ≡ test
      → tested_payment server request json test ≡ submits_task req
      → IsPaymentOf request req
  unfolding tested_payment
  tested-IsPaymentOf request json none req parsed tested h = cc
  tested-IsPaymentOf request json (some false) req parsed tested h = cc
  tested-IsPaymentOf request json (some true) req parsed tested h =
      built-IsPaymentOf request json _ req parsed tested refl h

  -- When the handler of a payment callback submits a request, the body was JSON, its five texts are
  -- strings that are not empty, its time is a number, and the submitted request has exactly these values
  -- and the id of the HTTP request.
  pub handle_payment_callback-IsPaymentOf :
      (request : HttpRequest J) (req : PaymentCallbackReq)
      → handle_payment_callback server request ≡ submits_task req
      → IsPaymentOf request req
  unfolding handle_payment_callback
  handle_payment_callback-IsPaymentOf request req h = elim (Option-cases request.json) [
    | inl missing ↦ cc (rw (missing, handle_payment_callback) at h)
    | inr (json, parsed) ↦
        tested-IsPaymentOf request json _ req parsed refl
          (guarded_task (server.reader.takes_keys json) (rw (parsed, handle_payment_callback) at h))
  ]
