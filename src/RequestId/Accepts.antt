-- ===== src/RequestId/Accepts.antt =====
-- What the filter lets through.

use trade_reconcile_system.Base.{All, [], arith, length, refl, true, ℕ, ◌↔◌, ◌∷◌, ◌≡◌, ◌≤◌, ◌⊎◌}
use trade_reconcile_system.Base.Bytes.{Bytes}
use trade_reconcile_system.RequestId.{allowed, is_hex, is_valid_request_id}

-- A byte of a request id: a hexadecimal digit or a dash.
abbrev pub IsIdByte : ℕ → Type 0
IsIdByte c = (b'0' ≤ c) × (c ≤ b'9') ⊎ (b'a' ≤ c) × (c ≤ b'f') ⊎ (b'A' ≤ c) × (c ≤ b'F') ⊎ c ≡ b'-'

allowed_sound : (s : Bytes) → allowed s ≡ true → All IsIdByte s
unfolding allowed is_hex
allowed_sound [] h = tt
allowed_sound (c ∷ s) h = (ground arith, allowed_sound s (ground arith))

allowed_complete : (s : Bytes) → All IsIdByte s → allowed s ≡ true
unfolding allowed is_hex
allowed_complete [] h = refl
allowed_complete (c ∷ s) (x, y) = ground (arith, allowed_complete s y)

-- The filter's test accepts exactly the ids of 16 to 64 bytes, each a hexadecimal digit or a dash.
pub is_valid_request_id_iff :
    (rid : Bytes)
    → (is_valid_request_id rid ≡ true) ↔ ((16 ≤ length rid) × (length rid ≤ 64) × All IsIdByte rid)
unfolding is_valid_request_id
is_valid_request_id_iff rid = (
  λ h. (ground arith, ground arith, allowed_sound rid (ground arith)),
  λ (long, short, bytes). ground (arith, allowed_complete rid bytes),
)
