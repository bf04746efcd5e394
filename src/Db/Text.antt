-- ===== src/Db/Text.antt =====
-- What the SQL statements do with text: the comparison of keys under the schema's collation
-- utf8mb4_0900_ai_ci (for ASCII text: case does not count), the widths of VARCHAR columns, and
-- the value of a text "[-]digits.dd" for `CAST(? AS DECIMAL(18,2))`, in fen. The range of the type is
-- tested by `fits_decimal` where a row is written: the statement fails for a value past it.
use trade_reconcile_system.Base.{
  All, Bool, [], ap, arith, if◌then◌else◌, leb, map, refl, suc, true, ℕ, ◌%◌, ◌&&◌, ◌*◌, ◌++◌, ◌+◌,
  ◌-◌, ◌/◌, ◌==◌, ◌∙◌, ◌∷◌, ◌≡◌, ◌≢◌,
}
use trade_reconcile_system.Base.Bytes.{Bytes, IsDigit, str_eq, str_eq_refl, str_eq_sym, str_eq→eq}
use trade_reconcile_system.Base.Decimal.{
  digits, digits-IsDigit, to_string, to_string-IsDigit, value_from, value_from-to_string,
}
use trade_reconcile_system.Base.Int.{negsuc, pos, ℤ}
use trade_reconcile_system.Money.{fen_to_yuan_string, negate, yuan_text}
use trade_reconcile_system.Money.RoundTrip.{decimals_two, digits-ne-nil, negate_suc}

fold_case : ℕ → ℕ
fold_case c = if leb b'A' c && leb c b'Z' then c + 32 else c

unfoldable pub sql_eq : Bytes → Bytes → Bool
unfolding fold_case
sql_eq s t = str_eq (map fold_case s) (map fold_case t)

pub sql_eq_refl : (s : Bytes) → sql_eq s s ≡ true
unfolding sql_eq
sql_eq_refl s = str_eq_refl (map fold_case s)

sql_eq→eq : (s t : Bytes) → sql_eq s t ≡ true → map fold_case s ≡ map fold_case t
unfolding sql_eq
sql_eq→eq s t h = str_eq→eq (map fold_case s) (map fold_case t) h

pub sql_eq_sym : (s t : Bytes) → sql_eq s t ≡ sql_eq t s
unfolding sql_eq
sql_eq_sym s t = str_eq_sym (map fold_case s) (map fold_case t)

-- Texts that the collation does not tell apart compare alike with every third text.
pub sql_eq_trans : (s t u : Bytes) → sql_eq s t ≡ true → sql_eq s u ≡ sql_eq t u
unfolding sql_eq
sql_eq_trans s t u h = ap (λ m. str_eq m (map fold_case u)) (sql_eq→eq s t h)

cast_tail : Bytes → ℕ
cast_tail [] = 0
cast_tail (c ∷ []) = (c - b'0') * 10
cast_tail (c ∷ d ∷ s) = (c - b'0') * 10 + (d - b'0')

cast_digits : ℕ → Bytes → ℕ
cast_digits v [] = v * 100
cast_digits v (c ∷ s) =
    let rest = cast_digits (v * 10 + (c - b'0')) s in
    if c == b'.' then v * 100 + cast_tail s else rest

unfoldable pub cast_decimal : Bytes → ℤ
unfolding cast_digits cast_tail
cast_decimal [] = pos 0
cast_decimal (c ∷ s) = if c == b'-' then negate (cast_digits 0 s) else pos (cast_digits 0 (c ∷ s))

cast_digits-value :
    (s rest : Bytes) (v : ℕ)
    → All IsDigit s
    → cast_digits v (s ++ b'.' ∷ rest) ≡ value_from v s * 100 + cast_tail rest
unfolding cast_digits
cast_digits-value [] rest v h = refl
cast_digits-value (c ∷ s) rest v (d, h) =
    ground (arith, cast_digits-value s rest (v * 10 + (c - b'0')) h)

tail_two :
    (n : ℕ) → n / 100 * 100 + cast_tail ((b'0' + n % 100 / 10) ∷ (b'0' + n % 100 % 10) ∷ []) ≡ n
unfolding cast_tail
tail_two n = omega arith

cast_digits-yuan_text : (n : ℕ) → cast_digits 0 (yuan_text n) ≡ n
unfolding yuan_text
cast_digits-yuan_text n = rw (decimals_two (n % 100) (omega arith)) (
    cast_digits-value (to_string (n / 100)) _ 0 (to_string-IsDigit (n / 100))
    ∙ rw (value_from-to_string (n / 100)) (tail_two n))

cast_decimal_digits :
    (t rest : Bytes)
    → t ≢ []
    → All IsDigit t
    → cast_decimal (t ++ rest) ≡ pos (cast_digits 0 (t ++ rest))
unfolding cast_decimal
cast_decimal_digits [] rest h d = absurd (h refl)
cast_decimal_digits (c ∷ t) rest h d = ground arith

cast_decimal-yuan_text : (n : ℕ) → cast_decimal (yuan_text n) ≡ pos (cast_digits 0 (yuan_text n))
unfolding yuan_text to_string
cast_decimal-yuan_text n =
    cast_decimal_digits (digits (suc (n / 100)) (n / 100)) _
      (digits-ne-nil (suc (n / 100)) (n / 100) (omega arith)) (digits-IsDigit _ (n / 100))

cast_decimal_minus : (t : Bytes) → cast_decimal (b'-' ∷ t) ≡ negate (cast_digits 0 t)
unfolding cast_decimal
cast_decimal_minus t = refl

-- The value of an amount's yuan text is the amount, to the fen.
pub cast_decimal-fen_to_yuan_string : (fen : ℤ) → cast_decimal (fen_to_yuan_string fen) ≡ fen
unfolding fen_to_yuan_string
cast_decimal-fen_to_yuan_string (pos n) =
    cast_decimal-yuan_text n ∙ ap pos (cast_digits-yuan_text n)
cast_decimal-fen_to_yuan_string (negsuc n) =
    cast_decimal_minus (yuan_text (n + 1))
    ∙ ap negate (cast_digits-yuan_text (n + 1))
    ∙ negate_suc n
