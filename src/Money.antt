-- ===== src/Money.antt =====
-- src/utils/MoneyUtil.cc: amounts in fen (std::int64_t) to and from yuan strings.
pub mod RoundTrip
pub mod Accepts
mod Tests
use trade_reconcile_system.Base.{
  Bool, Option, [], false, if◌then◌else◌, length, ltb, none, not, some, true, ℕ, ◌%◌, ◌*◌, ◌++◌,
  ◌+◌, ◌-◌, ◌/◌, ◌==◌, ◌||◌, ◌∷◌,
}
use trade_reconcile_system.Base.Bytes.{Bytes}
use trade_reconcile_system.Base.Decimal.{to_string}
use trade_reconcile_system.Base.Int.{negsuc, pos, ℤ}

-- "yuan.rem" with two digits of rem
unfoldable pub yuan_text : ℕ → Bytes
yuan_text abs =
    let yuan = abs / 100 in
    let rem = abs % 100 in
    to_string yuan ++ b'.' ∷ (if ltb rem 10 then b'0' ∷ to_string rem else to_string rem)

-- `-(fen + 1)` of `negsuc n` is n, and the code adds the 1 back as an unsigned number.
unfoldable pub fen_to_yuan_string : ℤ → Bytes
unfolding yuan_text
fen_to_yuan_string (pos n) = yuan_text n
fen_to_yuan_string (negsuc n) = b'-' ∷ yuan_text (n + 1)

-- The variables of the loop of `yuanStringToFen`.
pub record Scan : Type 0 where
  pub yuan : ℕ
  pub frac : ℕ
  pub frac_digits : ℕ
  pub seen_dot : Bool
  pub seen_digit : Bool

abbrev pub scan_start : Scan
scan_start = record { yuan = 0; frac = 0; frac_digits = 0; seen_dot = false; seen_digit = false }

-- One round of the loop, on one character.
unfoldable pub scan_step : ℕ → Scan → Option Scan
scan_step c s =
    if c == b'.'
    then (if s.seen_dot then none else some (record s { seen_dot = true }))
    else if ltb c b'0' || ltb b'9' c
    then none
    else if not s.seen_dot
    then (if ltb 100000000 s.yuan
        then none
        else some (record s { yuan = s.yuan * 10 + (c - b'0'); seen_digit = true }))
    else if ltb 2 (s.frac_digits + 1)
    then none
    else some (record s {
      frac = s.frac * 10 + (c - b'0');
      frac_digits = s.frac_digits + 1;
      seen_digit = true;
    })

unfoldable pub scan : Bytes → Scan → Option Scan
scan [] s = some s
scan (c ∷ r) s = elim (scan_step c s) [ none ↦ none | some s' ↦ scan r s' ]

-- `-fen`
unfoldable pub negate : ℕ → ℤ
negate n = if n == 0 then pos 0 else negsuc (n - 1)

-- What follows the loop: a digit is required, and one decimal stands for tens.
unfoldable pub finish : Bool → Scan → Option ℤ
unfolding negate
finish negative s =
    if not s.seen_digit
    then none
    else let frac = if s.frac_digits == 1 then s.frac * 10 else s.frac in
      let fen = s.yuan * 100 + frac in some (if negative then negate fen else pos fen)

scan_all : Bool → Bytes → Option ℤ
scan_all negative r = elim (scan r scan_start) [ none ↦ none | some s ↦ finish negative s ]

-- The optional sign, then the loop.
signed : Bytes → Option ℤ
unfolding scan_all
signed [] = none
signed (c ∷ r) = if c == b'+' || c == b'-' then scan_all (c == b'-') r else scan_all false (c ∷ r)

unfoldable pub yuan_string_to_fen : Bytes → Option ℤ
unfolding signed
yuan_string_to_fen raw = if ltb 20 (length raw) then none else signed raw
