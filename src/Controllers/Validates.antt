-- ===== src/Controllers/Validates.antt =====
-- What the handlers have checked of a request when they submit it.
use mathlib.Core.Option
use mathlib.Core.Path.{subst}
use trade_reconcile_system.Base.{
  Bool, List, Option, Option-cases, and_true, ap, arith, false, if◌then◌else◌, inl, inr, none, refl,
  some, some_inj, sym, true, ◌&&◌, ◌∙◌, ◌∷◌, ◌≡◌,
}
use trade_reconcile_system.Base.Bytes.{Bytes, codes}
use trade_reconcile_system.Base.Int.{ltb_ℤ, negsuc, pos, pos_part, ℤ}
use trade_reconcile_system.Controllers.{
  Handled, HttpRequest, Server, all_hold, raises, submits_task,
}
use trade_reconcile_system.Controllers.Orders.{
  all_fields-some, build_order_req, handle_create_order, has_positive_int, order_fields,
  order_tests, sha256_hex, tested_order,
}
use trade_reconcile_system.Models.Order.{CreateOrderReq}
use trade_reconcile_system.RequestId.{request_id_of}

pub all_hold-cons :
    (test : Option Bool) (tests : List (Option Bool))
    → all_hold (test ∷ tests) ≡ some true
    → (test ≡ some true) × (all_hold tests ≡ some true)
unfolding all_hold
all_hold-cons none tests h = cc
all_hold-cons (some false) tests h = cc
all_hold-cons (some true) tests h = (refl, h)

pub mapped_true :
    {A : Type 0} (p : A → Bool) (o : Option A) {a : A}
    → Option.map p o ≡ some true
    → o ≡ some a
    → p a ≡ true
mapped_true p none h e = cc
mapped_true p (some b) h e = sym (ap p (some_inj e)) ∙ some_inj h

pub then_true :
    (b : Bool) (o : Option Bool)
    → (if b then o else some false) ≡ some true
    → (b ≡ true) × (o ≡ some true)
then_true true o h = (refl, h)
then_true false o h = cc

pub submits-injective : {A : Type 0} {a b : A} → submits_task a ≡ submits_task b → a ≡ b
submits-injective h = cc

-- A handler that has submitted a task did not throw at its first look at the body.
pub guarded_task :
    {A : Type 0} (b : Bool) {h : Handled A} {a : A}
    → (if b then h else raises) ≡ submits_task a
    → h ≡ submits_task a
guarded_task true e = e
guarded_task false e = cc

positive_part : (n : ℤ) → ltb_ℤ (pos 0) n ≡ true → pos (pos_part n) ≡ n
positive_part (pos n) h = refl
positive_part (negsuc n) h = ground arith

module _ {J : Type 0} (server : Server J) where
  -- The member is a number that converts to a positive int64.
  pub record IsPositiveInt (json : J) (key : Bytes) (n : ℤ) : Type 0 where
    pub is_there : server.reader.is_member json key ≡ true
    pub is_number : server.reader.is_numeric (server.reader.at json key) ≡ true
    pub value : server.reader.as_int64 (server.reader.at json key) ≡ some n
    pub is_positive : ltb_ℤ (pos 0) n ≡ true

  has_positive_int_sound :
      (json : J) (key : Bytes) (n : ℤ)
      → has_positive_int server json key ≡ some true
      → server.reader.as_int64 (server.reader.at json key) ≡ some n
      → IsPositiveInt json key n
  unfolding has_positive_int
  has_positive_int_sound json key n h e =
      let (there, converts) = then_true (server.reader.is_member json key && _) _ h in
      let (present, numeric) = and_true (server.reader.is_member json key) there in
      record {
        is_there = present;
        is_number = numeric;
        value = e;
        is_positive = mapped_true _ (server.reader.as_int64 (server.reader.at json key)) converts e;
      }

  as_positive :
      (json : J) (key : Bytes) (n : ℤ)
      → IsPositiveInt json key n
      → IsPositiveInt json key (pos (pos_part n))
  as_positive json key n h =
      subst (λ m. IsPositiveInt json key m) (sym (positive_part n h.is_positive)) h

  -- The request that the handler submits is the one of the body.
  pub record OfBody (request : HttpRequest J) (req : CreateOrderReq) : Type 0 where
    pub json : J
    pub parsed : request.json ≡ some json
    pub product : IsPositiveInt json (codes "productId") (pos req.product_id)
    pub quantity : IsPositiveInt json (codes "quantity") req.quantity
    pub user : IsPositiveInt json (codes "userId") (pos req.user_id)
    pub same_id : req.request_id ≡ request_id_of request.filtered
    pub hashed : req.request_hash ≡ sha256_hex server request.request_body

  -- The three tests and the three conversions of a body that is submitted.
  fields-OfBody :
      (request : HttpRequest J) (json : J) (fields : Option (ℤ × ℤ × ℤ)) (req : CreateOrderReq)
      → request.json ≡ some json
      → order_tests server json ≡ some true
      → order_fields server json ≡ fields
      → build_order_req server (request_id_of request.filtered) request.request_body fields
        ≡ submits_task req
      → OfBody request req
  unfolding order_tests order_fields build_order_req
  fields-OfBody request json none req parsed tested fields h = cc
  fields-OfBody request json (some (p, q, u)) req parsed tested fields h =
      let built = submits-injective h in
      let (product, rest) = all_hold-cons _ _ tested in
      let (quantity, last) = all_hold-cons _ _ rest in
      let (user, none_left) = all_hold-cons _ _ last in
      let (has_p, has_q, has_u) = all_fields-some _ _ _ fields in
      subst (λ r. OfBody request r) built
        (record {
          json = json;
          parsed = parsed;
          product = as_positive json _ p (has_positive_int_sound json _ p product has_p);
          quantity = has_positive_int_sound json _ q quantity has_q;
          user = as_positive json _ u (has_positive_int_sound json _ u user has_u);
          same_id = refl;
          hashed = refl;
        })

  tested-OfBody :
      (request : HttpRequest J) (json : J) (test : Option Bool) (req : CreateOrderReq)
      → request.json ≡ some json
      → order_tests server json ≡ test
      → tested_order server request json test ≡ submits_task req
      → OfBody request req
  unfolding tested_order
  tested-OfBody request json none req parsed tested h = cc
  tested-OfBody request json (some false) req parsed tested h = cc
  tested-OfBody request json (some true) req parsed tested h =
      fields-OfBody request json _ req parsed tested refl h

  -- When the handler of an order submits a request, the body was JSON, its product id, quantity and user
  -- id are numbers that convert to positive 64-bit integers, the submitted request has exactly these
  -- values and the id of the HTTP request, and its hash is that of the whole body.
  pub handle_create_order-OfBody :
      (request : HttpRequest J) (req : CreateOrderReq)
      → handle_create_order server request ≡ submits_task req
      → OfBody request req
  unfolding handle_create_order
  handle_create_order-OfBody request req h = elim (Option-cases request.json) [
    | inl missing ↦ cc (rw missing at h)
    | inr (json, parsed) ↦
        tested-OfBody request json _ req parsed refl
          (guarded_task (server.reader.takes_keys json) (rw (parsed, handle_create_order) at h))
  ]
