-- ===== src/Dao.antt =====
-- src/dao/*.cc: one function for each method, as the SQL statement that it runs.
pub mod Product
pub mod Idempotent
pub mod Order
pub mod Account
pub mod Payment
pub mod LocalMessage
pub mod Notify
pub mod Reconcile
mod Tests
use trade_reconcile_system.Base.{Bool, leb, length, ltb, ℕ, ◌&&◌, ◌^◌}
use trade_reconcile_system.Base.Bytes.{Bytes}
use trade_reconcile_system.Base.Int.{neg_part, pos_part, ℤ}

-- The range of a DECIMAL(18,2) column, in fen.
abbrev pub fits_decimal : ℤ → Bool
fits_decimal z = ltb (pos_part z) (10 ^ 18) && ltb (neg_part z) (10 ^ 18)

-- The width of a VARCHAR column.
abbrev pub fits_width : ℕ → Bytes → Bool
fits_width n s = leb (length s) n

-- A number that `static_cast<long long>` keeps and a BIGINT UNSIGNED column takes.
abbrev pub fits_id : ℕ → Bool
fits_id n = ltb n (2 ^ 63)
