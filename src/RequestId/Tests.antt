-- ===== src/RequestId/Tests.antt =====
-- Requests at the filter, and witnesses.

use trade_reconcile_system.Base.{All, false, length, none, refl, some, true, ◌↔◌, ◌≡◌, ◌≤◌}
use trade_reconcile_system.Base.Bytes.{Bytes, codes}
use trade_reconcile_system.RequestId.{Request, do_filter, is_valid_request_id, passed, post}
use trade_reconcile_system.RequestId.Accepts.{IsIdByte, is_valid_request_id_iff}

abbrev rid : Bytes
rid = codes "0123456789abcdef"

refused : is_valid_request_id (codes "0123456789abcdeg") ≡ false
unfolding is_valid_request_id
refused = refl

abbrev post_request : Bytes → Request
post_request header = record { method = post; header = header; attribute = none }

passes : do_filter (post_request rid) ≡ passed (record (post_request rid) { attribute = some rid })
unfolding do_filter is_valid_request_id
passes = refl

is_valid_request_id_iff_example :
    (is_valid_request_id rid ≡ true) ↔ ((16 ≤ length rid) × (length rid ≤ 64) × All IsIdByte rid)
is_valid_request_id_iff_example = is_valid_request_id_iff rid
