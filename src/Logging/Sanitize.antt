-- ===== src/Logging/Sanitize.antt =====
-- What `sanitizeRequestId` lets into a log pattern (src/common/Logger.cc).
use trade_reconcile_system.Base.{
  All, All-append, Bool, [], append-nil, append_assoc, arith, either, false, if◌then◌else◌, length,
  ltb, refl, sym, true, ℕ, ◌++◌, ◌||◌, ◌∙◌, ◌∷◌, ◌≡◌, ◌≤◌, ◌⊎◌,
}
use trade_reconcile_system.Base.Bytes.{Bytes}
use trade_reconcile_system.Logging.{
  allowed_in_id, copy_allowed, is_empty, max_request_id_len, sanitize_request_id,
}
use trade_reconcile_system.RequestId.{is_valid_request_id}
use trade_reconcile_system.RequestId.Accepts.{IsIdByte, is_valid_request_id_iff}

-- A digit, a letter, a dash or an underscore: no percent sign, bracket or line break.
abbrev pub IsSafeByte : ℕ → Type 0
IsSafeByte c =
    (b'0' ≤ c) × (c ≤ b'9')
    ⊎ (b'a' ≤ c) × (c ≤ b'z')
    ⊎ (b'A' ≤ c) × (c ≤ b'Z')
    ⊎ c ≡ b'-'
    ⊎ c ≡ b'_'

allowed_in_id_sound : (c : ℕ) → allowed_in_id c ≡ true → IsSafeByte c
unfolding allowed_in_id
allowed_in_id_sound c h = ground arith

copied-IsSafe :
    (c : ℕ) (ok : Bool) (out raw : Bytes)
    → allowed_in_id c ≡ ok
    → All IsSafeByte out
    → ((longer : Bytes) → All IsSafeByte longer → All IsSafeByte (copy_allowed longer raw))
    → All IsSafeByte (if ok then copy_allowed (out ++ c ∷ []) raw else [])
copied-IsSafe c true out raw e safe go_on =
    go_on (out ++ c ∷ []) (All-append IsSafeByte out (c ∷ []) safe (allowed_in_id_sound c e, tt))
copied-IsSafe c false out raw e safe go_on = tt

copy_allowed-IsSafe : (raw out : Bytes) → All IsSafeByte out → All IsSafeByte (copy_allowed out raw)
unfolding copy_allowed
copy_allowed-IsSafe [] out safe = safe
copy_allowed-IsSafe (c ∷ raw) out safe =
    copied-IsSafe c (allowed_in_id c) out raw refl safe
      (λ longer h. copy_allowed-IsSafe raw longer h)

-- Whatever the id, the text that goes into a log pattern has no byte but digits, letters, dashes and
-- underscores.
pub sanitize_request_id-IsSafe : (raw : Bytes) → All IsSafeByte (sanitize_request_id raw)
unfolding sanitize_request_id
sanitize_request_id-IsSafe raw =
    either (All IsSafeByte) (is_empty raw || ltb max_request_id_len (length raw)) tt
      (copy_allowed-IsSafe raw [] tt)

id_byte-allowed : (c : ℕ) → IsIdByte c → allowed_in_id c ≡ true
unfolding allowed_in_id
id_byte-allowed c h = ground arith

copy_allowed-kept : (raw out : Bytes) → All IsIdByte raw → copy_allowed out raw ≡ out ++ raw
unfolding copy_allowed
copy_allowed-kept [] out h = sym (append-nil out)
copy_allowed-kept (c ∷ raw) out (x, y) =
    rw (id_byte-allowed c x)
      (copy_allowed-kept raw (out ++ c ∷ []) y ∙ append_assoc out (c ∷ []) raw)

sized :
    (raw : Bytes)
    → 16 ≤ length raw
    → length raw ≤ 64
    → (is_empty raw || ltb max_request_id_len (length raw)) ≡ false
unfolding is_empty
sized [] long short = absurd (omega (arith, long))
sized (c ∷ raw) long short = ground arith

-- An id that the filter of the HTTP interface accepts is logged as it is.
pub sanitize_request_id-is_valid_request_id :
    (rid : Bytes) → is_valid_request_id rid ≡ true → sanitize_request_id rid ≡ rid
unfolding sanitize_request_id
sanitize_request_id-is_valid_request_id rid h =
    let (long, short, bytes) = (is_valid_request_id_iff rid).0 h in
    rw (sized rid long short) (copy_allowed-kept rid [] bytes)
