-- ===== src/Money/Accepts.antt =====
-- What `yuanStringToFen` returns stays in a fixed range, so its int64_t arithmetic cannot overflow.
-- The loop's invariant: bounded yuan, at most two decimals.
use trade_reconcile_system.Base.{
  Bool, Option-cases, [], arith, false, inl, inr, length, refl, some, ℕ, ◌==◌, ◌∷◌, ◌≡◌, ◌≢◌, ◌≤◌,
  ◌⊎◌,
}
use trade_reconcile_system.Base.Bytes.{Bytes}
use trade_reconcile_system.Base.Int.{ℤ}
use trade_reconcile_system.Money.{
  Scan, finish, negate, scan, scan_all, scan_start, scan_step, signed, yuan_string_to_fen,
}
use trade_reconcile_system.Money.RoundTrip.{magnitude, max_yuan}

record InRange (s : Scan) : Type 0 where
  yuan_le : s.yuan ≤ max_yuan
  decimals :
      ((s.frac_digits ≡ 0) × (s.frac ≡ 0))
      ⊎ ((s.frac_digits ≡ 1) × (s.frac ≤ 9))
      ⊎ ((s.frac_digits ≡ 2) × (s.frac ≤ 99))

scan_step-InRange : (c : ℕ) (s s' : Scan) → InRange s → scan_step c s ≡ some s' → InRange s'
unfolding scan_step
scan_step-InRange c s s' v e = ground arith

scan-InRange : (r : Bytes) (s s' : Scan) → InRange s → scan r s ≡ some s' → InRange s'
unfolding scan
scan-InRange [] s s' v e = ground arith
scan-InRange (c ∷ r) s s' v e = elim (Option-cases (scan_step c s)) [
  | inl stop ↦ absurd (ground arith)
  | inr (t, step) ↦ scan-InRange r t s' (scan_step-InRange c s t v step) (ground arith)
]

scan_start-InRange : InRange scan_start
scan_start-InRange = record { yuan_le = omega arith; decimals = inl (refl, refl) }

finish-le :
    (negative : Bool) (s : Scan) (z : ℤ)
    → InRange s
    → finish negative s ≡ some z
    → magnitude z ≤ 100000000999
unfolding finish negate
finish-le negative s z v e = ground arith

scan_all-le :
    (negative : Bool) (r : Bytes) (z : ℤ)
    → scan_all negative r ≡ some z
    → magnitude z ≤ 100000000999
unfolding scan_all
scan_all-le negative r z e = elim (Option-cases (scan r scan_start)) [
  | inl stop ↦ absurd (ground arith)
  | inr (s, read) ↦
      finish-le negative s z (scan-InRange r scan_start s scan_start-InRange read) (ground arith)
]

signed-le : (r : Bytes) (z : ℤ) → signed r ≡ some z → magnitude z ≤ 100000000999
unfolding signed
signed-le [] z e = cc
signed-le (c ∷ r) z e = ground (arith, scan_all-le (c == b'-') r z, scan_all-le false (c ∷ r) z)

-- An accepted text stands for at most 100000000999 fen (1000000009.99 yuan) in absolute value,
-- and every accepted text is at most 20 bytes long and not empty.
pub yuan_string_to_fen_bounds :
    (raw : Bytes) (z : ℤ)
    → yuan_string_to_fen raw ≡ some z
    → (magnitude z ≤ 100000000999) × (length raw ≤ 20) × (raw ≢ [])
unfolding yuan_string_to_fen signed
yuan_string_to_fen_bounds [] z e = cc
yuan_string_to_fen_bounds (c ∷ r) z e = (ground (arith, signed-le (c ∷ r) z), ground arith, cc)
