-- ===== src/RequestId.antt =====
-- src/common/RequestIdFilter.cc
pub mod Accepts
mod Tests
use trade_reconcile_system.Models.Result
use trade_reconcile_system.Base.{
  Bool, Option, [], false, if◌then◌else◌, leb, length, ltb, none, not, some, true, ℕ, ◌&&◌, ◌==◌,
  ◌||◌, ◌∷◌,
}
use trade_reconcile_system.Base.Bytes.{Bytes}
use trade_reconcile_system.Base.Int.{ℤ}
use trade_reconcile_system.Models.ErrCode.{missing_request_id, to_message}
use trade_reconcile_system.Models.Result.{Result, fail}

is_hex : ℕ → Bool
is_hex c = leb b'0' c && leb c b'9' || leb b'a' c && leb c b'f' || leb b'A' c && leb c b'F'

allowed : Bytes → Bool
unfolding is_hex
allowed [] = true
allowed (c ∷ s) = if not (is_hex c) && not (c == b'-') then false else allowed s

unfoldable pub is_valid_request_id : Bytes → Bool
unfolding allowed
is_valid_request_id rid = if ltb (length rid) 16 || ltb 64 (length rid) then false else allowed rid

pub data Method : Type 0 where
  get head options post put delete_ patch_ : Method

-- The request as the filter sees it: the header's value, and the attribute that the filter sets.
pub record Request : Type 0 where
  pub method : Method
  pub header : Bytes
  pub attribute : Option Bytes

-- The chain goes on with the request, or a response with status 400 is sent.
pub data Filtered : Type 0 where
  passed : Request → Filtered
  rejected : ℕ → Result ℤ → Filtered

is_exempt : Method → Bool
is_exempt get = true
is_exempt head = true
is_exempt options = true
is_exempt _ = false

unfoldable pub do_filter : Request → Filtered
unfolding is_exempt
do_filter req =
    if is_exempt req.method
    then passed req
    else if is_valid_request_id req.header
    then passed (record req { attribute = some req.header })
    else rejected 400 (Result.fail missing_request_id (to_message missing_request_id) req.header)

unfoldable pub request_id_of : Request → Bytes
request_id_of req = elim req.attribute [ none ↦ req.header | some rid ↦ rid ]
