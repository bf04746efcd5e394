-- ===== src/Controllers/Paid.antt =====
-- What a POST of a payment callback does to the database.
use trade_reconcile_system.PaymentService.Atomic
use trade_reconcile_system.Models.Result
use trade_reconcile_system.Base.{Bool, ap, false, inl, inr, refl, true, ◌∙◌, ◌≡◌, ◌⊎◌}
use trade_reconcile_system.Channel.{Settings}
use trade_reconcile_system.Controllers.{
  Handled, HttpRequest, HttpResponse, Server, call, new_http_json_response, raises, replies,
  respond, submit_task, submits_task, under_drogon,
}
use trade_reconcile_system.Controllers.Mapped.{mapped-done, mapped-world}
use trade_reconcile_system.Controllers.Payments.{
  handle_payment_callback, json_result, payment_task, post_payment_callback,
}
use trade_reconcile_system.Controllers.Pays.{IsPaymentOf, handle_payment_callback-IsPaymentOf}
use trade_reconcile_system.Db.Monad.{Env, M, Outcome, World, done, pure, throw}
use trade_reconcile_system.Models.Payment.{PaymentCallbackReq}
use trade_reconcile_system.Models.Result.{Result, to_json}
use trade_reconcile_system.PaymentService.{handle_callback, paid_answer}
use trade_reconcile_system.PaymentService.Atomic.{Paid, paid_db}
use trade_reconcile_system.PaymentService.Refines.{handle_callback-Ends}
use trade_reconcile_system.PaymentService.Unsigned.{IsSigned, paid-IsSigned}
use trade_reconcile_system.RequestId.{request_id_of}

-- A callback that confirmed a payment: the body holds its request, which is signed, the service settled
-- it, and the response is the JSON of the confirmation with status 200.
pub record PaymentPosted {J : Type 0} (server : Server J) (env : Env) (settings : Settings)
    (request : HttpRequest J) (w : World) (r : Outcome HttpResponse × World) : Type 0 where
  pub req : PaymentCallbackReq
  pub of_body : IsPaymentOf server request req
  pub signed : IsSigned settings req
  pub settled :
      Paid env settings req request.request_body w.committed
        (handle_callback env settings req request.request_body w)
  pub answered :
      r.0
      ≡ done (record {
        http_status = 200;
        is_json = true;
        response_text = server.write_http (Result.to_json (λ j. j) (paid_answer req));
      })
  pub stored :
      r.1.committed
      ≡ paid_db env settings req settled.order settled.payment settled.account settled.after
          settled.message_id w.committed

module _ {J : Type 0} (server : Server J) (env : Env) (settings : Settings)
    (request : HttpRequest J) (w : World) where
  abbrev pub PaymentEnds : Outcome HttpResponse × World → Type 0
  PaymentEnds r = (r.1.committed ≡ w.committed) ⊎ PaymentPosted server env settings request w r

  abbrev task : PaymentCallbackReq → M HttpResponse
  task = payment_task server env settings request.request_body

  settled-Ends :
      (req : PaymentCallbackReq)
      → handle_payment_callback server request ≡ submits_task req
      → Atomic.Ends env settings req request.request_body w.committed
          (handle_callback env settings req request.request_body w)
      → PaymentEnds (task req w)
  unfolding payment_task json_result new_http_json_response
  settled-Ends req e (inl same) = inl (
      ap (λ (v : World). v.committed)
        (mapped-world (handle_callback env settings req request.request_body) (json_result server)
          w)
      ∙ same.kept)
  settled-Ends req e (inr paid_now) = inr (record {
    req = req;
    of_body = handle_payment_callback-IsPaymentOf server request req e;
    signed = paid-IsSigned env settings req request.request_body w paid_now.told;
    settled = paid_now;
    answered =
        mapped-done (handle_callback env settings req request.request_body) (json_result server) w
          {a = paid_answer req} paid_now.told;
    stored =
        ap (λ (v : World). v.committed)
          (mapped-world (handle_callback env settings req request.request_body) (json_result server)
            w)
        ∙ paid_now.stored;
  })

  submitted-Ends :
      (accepted : Bool) (req : PaymentCallbackReq)
      → handle_payment_callback server request ≡ submits_task req
      → PaymentEnds (submit_task server accepted (request_id_of request.filtered) task req w)
  unfolding submit_task call throw under_drogon
  submitted-Ends true req e =
      settled-Ends req e (handle_callback-Ends env settings req request.request_body w)
  submitted-Ends false req e = inl refl

  respond-Ends :
      (accepted : Bool) (h : Handled PaymentCallbackReq)
      → handle_payment_callback server request ≡ h
      → PaymentEnds (respond server accepted (request_id_of request.filtered) task h w)
  unfolding respond call pure throw under_drogon
  respond-Ends accepted (replies resp) e = inl refl
  respond-Ends accepted (submits_task req) e = submitted-Ends accepted req e
  respond-Ends accepted raises e = inl refl

  -- However a POST of a payment callback ends, the committed database is unchanged, or the body was JSON
  -- with the texts and the time of a request, the request is signed under the configured secret, the
  -- response has status 200 and the JSON that confirms its payment, and the committed database is
  -- `paid_db` for it.
  pub post_payment_callback-Ends :
      (accepted : Bool) → PaymentEnds (post_payment_callback server env settings accepted request w)
  unfolding post_payment_callback
  post_payment_callback-Ends accepted =
      respond-Ends accepted (handle_payment_callback server request) refl
