-- ===== src/Base/Calendar.antt =====
-- gmtime_r and strftime with "%Y-%m-%d %H:%M:%S", as services/OrderService.cc, PaymentService.cc
-- and tasks/ReconcileTask.cc call them: seconds since 1970 to civil time, from year 0 on.
use Prim.Native.Nat.{ℕ, ◌+◌, ◌-◌, ◌*◌, ◌/◌, ◌%◌}
use mathlib.Core.Path.{◌≡◌, refl}
use mathlib.Core.List.{◌∷◌, ◌++◌}
use trade_reconcile_system.Base.Tests.{ltb, if◌then◌else◌}
use trade_reconcile_system.Base.Bytes.{Bytes, codes}
use trade_reconcile_system.Base.Int.{ℤ, pos, negsuc, ◌+ℤ◌, pos_part}
use trade_reconcile_system.Base.Decimal.{to_string, digits}

pub record Tm : Type 0 where
  pub year : ℕ
  pub month : ℕ
  pub day : ℕ
  pub hour : ℕ
  pub minute : ℕ
  pub second : ℕ

-- The year that begins in March, and the day in it (both from 0), of a day counted from 1 March
-- of year 0.
march_year : ℕ → ℕ
march_year z =
    let e = z % 146097 in z / 146097 * 400 + (e - e / 1460 + e / 36524 - e / 146096) / 365

march_day : ℕ → ℕ
march_day z =
    let e = z % 146097 in
    let y = (e - e / 1460 + e / 36524 - e / 146096) / 365 in e - (365 * y + y / 4 - y / 100)

-- 719468 days lie between 1 March of year 0 and 1 January 1970.
pub gmtime : ℤ → Tm
unfolding march_year march_day
gmtime t =
    let s = pos_part (t +ℤ pos (719468 * 86400)) in
    let z = s / 86400 in
    let r = s % 86400 in
    let m = (5 * march_day z + 2) / 153 in
    record {
      year = march_year z + (if ltb m 10 then 0 else 1);
      month = if ltb m 10 then m + 3 else m - 9;
      day = march_day z - (153 * m + 2) / 5 + 1;
      hour = r / 3600;
      minute = r % 3600 / 60;
      second = r % 60;
    }

-- "%02d"
two_digits : ℕ → Bytes
two_digits n = if ltb n 10 then b'0' ∷ to_string n else to_string n

-- "%Y-%m-%d"
unfoldable pub format_date : Tm → Bytes
unfolding two_digits
format_date t = to_string t.year ++ b'-' ∷ two_digits t.month ++ b'-' ∷ two_digits t.day

-- "%Y-%m-%d %H:%M:%S"
unfoldable pub format_time : ℤ → Bytes
unfolding gmtime format_date two_digits
format_time s =
    let t = gmtime s in
    format_date t
    ++ (b' ' ∷ two_digits t.hour ++ b':' ∷ two_digits t.minute ++ b':' ∷ two_digits t.second)

leap_day : format_time (pos 1709210096) ≡ codes "2024-02-29 12:34:56"
unfolding format_time to_string digits ◌+ℤ◌
leap_day = refl

new_year : format_time (pos 1704067199) ≡ codes "2023-12-31 23:59:59"
unfolding format_time to_string digits ◌+ℤ◌
new_year = refl

before_1970 : format_time (negsuc 0) ≡ codes "1969-12-31 23:59:59"
unfolding format_time to_string digits ◌+ℤ◌
before_1970 = refl
