-- ===== src/Dao/Account/Balance.antt =====
-- The balances under `deduct`.
use trade_reconcile_system.Base.{
  All, Bool-cases, List, [], if◌then◌else◌, inl, inr, update_where, ◌∷◌,
}
use trade_reconcile_system.Base.Bytes.{Bytes}
use trade_reconcile_system.Base.Int.{int_laws, pos, ℤ, ◌-ℤ◌, ◌≤ℤ◌}
use trade_reconcile_system.Dao.Account.{charge_rows, charged, payer}
use trade_reconcile_system.Db.{AccountRow}

abbrev pub IsSolvent : AccountRow → Type 0
IsSolvent r = pos 0 ≤ℤ r.balance

charged-IsSolvent :
    (account_no : Bytes) (amount : ℤ) (r : AccountRow)
    → IsSolvent r
    → IsSolvent (if payer account_no amount r then charged amount r else r)
unfolding payer charged ◌-ℤ◌
charged-IsSolvent account_no amount r h = elim (Bool-cases (payer account_no amount r)) [
  | inl hit ↦ rw hit (grind int_laws)
  | inr miss ↦ rw miss h
]

-- A deduction, of any amount, leaves no balance below zero when none was.
pub charge_rows-IsSolvent :
    (account_no : Bytes) (amount : ℤ) (rows : List AccountRow)
    → All IsSolvent rows
    → All IsSolvent (charge_rows account_no amount rows)
unfolding charge_rows update_where
charge_rows-IsSolvent account_no amount [] h = tt
charge_rows-IsSolvent account_no amount (r ∷ rows) (h, hs) =
    (charged-IsSolvent account_no amount r h, charge_rows-IsSolvent account_no amount rows hs)
