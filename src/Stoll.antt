-- ===== src/Stoll.antt =====
-- std::stoll, in base 10.
use trade_reconcile_system.Base.{
  Bool, Option, [], false, if◌then◌else◌, leb, none, some, true, ℕ, ◌&&◌, ◌*◌, ◌+◌, ◌-◌, ◌==◌, ◌^◌,
  ◌||◌, ◌∷◌,
}
use trade_reconcile_system.Base.Bytes.{Bytes, is_digit}
use trade_reconcile_system.Base.Int.{leb_ℤ, ltb_ℤ, negsuc, pos, ℤ}
use trade_reconcile_system.Money.{negate}

-- `std::stoll`: white space, a sign, then digits up to the first other character. `none` is the
-- exception, for no digit at all or a value outside int64_t.
is_space : ℕ → Bool
is_space c = c == 32 || leb 9 c && leb c 13

skip_spaces : Bytes → Bytes
unfolding is_space
skip_spaces [] = []
skip_spaces (c ∷ s) = let rest = skip_spaces s in if is_space c then rest else c ∷ s

leading_value : ℕ → Bytes → ℕ
leading_value n [] = n
leading_value n (c ∷ s) =
    let rest = leading_value (n * 10 + (c - b'0')) s in if is_digit c then rest else n

starts_with_digit : Bytes → Bool
starts_with_digit [] = false
starts_with_digit (c ∷ s) = is_digit c

in_i64 : ℤ → Option ℤ
in_i64 z = if leb_ℤ (negsuc (2 ^ 63 - 1)) z && ltb_ℤ z (pos (2 ^ 63)) then some z else none

unsigned : Bool → Bytes → Option ℤ
unfolding starts_with_digit leading_value in_i64 negate
unsigned is_negative s =
    if starts_with_digit s
    then in_i64 (if is_negative then negate (leading_value 0 s) else pos (leading_value 0 s))
    else none

with_sign : Bytes → Option ℤ
unfolding unsigned
with_sign [] = none
with_sign (c ∷ s) =
    if c == b'-'
    then unsigned true s
    else if c == b'+'
    then unsigned false s
    else unsigned false (c ∷ s)

unfoldable pub stoll : Bytes → Option ℤ
unfolding with_sign skip_spaces
stoll s = with_sign (skip_spaces s)
