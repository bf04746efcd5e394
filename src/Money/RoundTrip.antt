-- ===== src/Money/RoundTrip.antt =====
-- Printing an amount and reading it back.
use trade_reconcile_system.Base.{
  All, Bool, Bool-cases, [], ap, append_assoc, arith, false, if◌then◌else◌, inl, inr, leb, length,
  length-append, ltb, none, refl, some, suc, true, zero, ℕ, ◌%◌, ◌*◌, ◌++◌, ◌+◌, ◌/◌, ◌<◌, ◌∙◌, ◌∷◌,
  ◌≡◌, ◌≢◌, ◌≤◌,
}
use trade_reconcile_system.Base.Bytes.{Bytes, IsDigit}
use trade_reconcile_system.Base.Decimal.{
  digits, digits-IsDigit, digits_one, digits_two, length-digits-le, to_string,
}
use trade_reconcile_system.Base.Int.{neg_part, negsuc, pos, pos_part, ℤ}
use trade_reconcile_system.Money.{
  Scan, fen_to_yuan_string, finish, negate, scan, scan_all, scan_start, scan_step, signed,
  yuan_string_to_fen, yuan_text,
}

-- The state after the digits of n and no dot.
abbrev whole : ℕ → Scan
whole n = record { yuan = n; frac = 0; frac_digits = 0; seen_dot = false; seen_digit = true }

-- The largest number of yuan that the loop reads: its test looks at the digits before the last.
abbrev pub max_yuan : ℕ
max_yuan = 1000000009

pub scan-cons :
    (c : ℕ) (r : Bytes) (s s' : Scan) → scan_step c s ≡ some s' → scan (c ∷ r) s ≡ scan r s'
unfolding scan
scan-cons c r s s' e = ground arith

pub scan-cons_none : (c : ℕ) (r : Bytes) (s : Scan) → scan_step c s ≡ none → scan (c ∷ r) s ≡ none
unfolding scan
scan-cons_none c r s e = ground arith

-- A digit before the dot, when at most eight digits and a bit have been read.
step_whole :
    (d : ℕ) (s : Scan)
    → d ≤ 9
    → s.yuan ≤ 100000000
    → s.seen_dot ≡ false
    → scan_step (b'0' + d) s ≡ some (record s { yuan = s.yuan * 10 + d; seen_digit = true })
unfolding scan_step
step_whole d s h k e = ground arith

step_whole_over :
    (d : ℕ) (s : Scan)
    → d ≤ 9
    → 100000000 < s.yuan
    → s.seen_dot ≡ false
    → scan_step (b'0' + d) s ≡ none
unfolding scan_step
step_whole_over d s h k e = ground arith

join : (n : ℕ) → whole (n / 10 * 10 + n % 10) ≡ whole n
join n = ap whole (omega arith)

scan-digits :
    (f n : ℕ) (rest : Bytes)
    → n < f
    → n ≤ max_yuan
    → scan (digits f n ++ rest) scan_start ≡ scan rest (whole n)
unfolding digits
scan-digits zero n rest h k = absurd (omega arith)
scan-digits (suc f) n rest h k = elim (Bool-cases (ltb n 10)) [
  | inl short ↦ rw short (
      scan-cons (b'0' + n) rest scan_start _
        (step_whole n scan_start (ground arith) (omega arith) refl)
      ∙ ap (λ m. scan rest (whole m)) (omega arith))
  | inr more ↦
      rw (more, append_assoc (digits f (n / 10)) ((b'0' + n % 10) ∷ []) rest)
        (scan-digits f (n / 10) ((b'0' + n % 10) ∷ rest) (ground arith) (omega arith)
          ∙ scan-cons (b'0' + n % 10) rest (whole (n / 10)) _
              (step_whole (n % 10) (whole (n / 10)) (omega arith) (omega arith) refl)
          ∙ ap (scan rest) (join n))
]

scan-digits_over :
    (f n : ℕ) (rest : Bytes) → n < f → max_yuan < n → scan (digits f n ++ rest) scan_start ≡ none
unfolding digits
scan-digits_over zero n rest h k = absurd (omega arith)
scan-digits_over (suc f) n rest h k = elim (Bool-cases (ltb n 10)) [
  | inl short ↦ absurd (ground arith)
  | inr more ↦
      rw (more, append_assoc (digits f (n / 10)) ((b'0' + n % 10) ∷ []) rest)
        (elim (Bool-cases (ltb max_yuan (n / 10))) [
          | inl over ↦
              scan-digits_over f (n / 10) ((b'0' + n % 10) ∷ rest) (ground arith) (ground arith)
          | inr fits ↦
              scan-digits f (n / 10) ((b'0' + n % 10) ∷ rest) (ground arith) (ground arith)
              ∙ scan-cons_none (b'0' + n % 10) rest (whole (n / 10))
                  (step_whole_over (n % 10) (whole (n / 10)) (omega arith) (omega arith) refl)
        ])
]

-- `yuan_text` ends in two digits.
pub decimals_two :
    (rem : ℕ)
    → rem < 100
    → (if ltb rem 10 then b'0' ∷ to_string rem else to_string rem)
      ≡ (b'0' + rem / 10) ∷ (b'0' + rem % 10) ∷ []
unfolding to_string
decimals_two rem h = elim (Bool-cases (ltb rem 10)) [
  | inl short ↦ rw (short, digits_one (suc rem) rem (omega arith) (ground arith)) (ground arith)
  | inr two ↦ rw (two, digits_two (suc rem) rem (omega arith) (ground arith) h)
]

after_decimals : ℕ → ℕ → Scan
after_decimals n rem = record {
  yuan = n;
  frac = rem;
  frac_digits = 2;
  seen_dot = true;
  seen_digit = true;
}

scan_decimals :
    (n rem : ℕ)
    → rem < 100
    → scan (b'.' ∷ (b'0' + rem / 10) ∷ (b'0' + rem % 10) ∷ []) (whole n)
      ≡ some (after_decimals n rem)
unfolding scan scan_step after_decimals
scan_decimals n rem h = ground arith

finish_decimals :
    (negative : Bool) (n : ℕ)
    → finish negative (after_decimals (n / 100) (n % 100))
      ≡ some (if negative then negate n else pos n)
unfolding finish after_decimals negate
finish_decimals negative n = ground arith

scan_all-some :
    (negative : Bool) (r : Bytes) (s : Scan)
    → scan r scan_start ≡ some s
    → scan_all negative r ≡ finish negative s
unfolding scan_all
scan_all-some negative r s e = rw (e, scan_all)

scan_all-none :
    (negative : Bool) (r : Bytes) → scan r scan_start ≡ none → scan_all negative r ≡ none
unfolding scan_all
scan_all-none negative r e = rw (e, scan_all)

-- The loop over a printed amount.
scan_text :
    (negative : Bool) (n : ℕ)
    → scan_all negative (yuan_text n)
      ≡ (if leb (n / 100) max_yuan then some (if negative then negate n else pos n) else none)
unfolding yuan_text to_string
scan_text negative n = elim (Bool-cases (leb (n / 100) max_yuan)) [
  | inl fits ↦
      rw (fits, decimals_two (n % 100) (omega arith))
        (scan_all-some negative _ (after_decimals (n / 100) (n % 100)) (
            scan-digits (suc (n / 100)) (n / 100) _ (omega arith) (ground arith)
            ∙ scan_decimals (n / 100) (n % 100) (omega arith))
          ∙ finish_decimals negative n)
  | inr over ↦ rw over (
      scan_all-none negative _
        (scan-digits_over (suc (n / 100)) (n / 100) _ (omega arith) (ground arith)))
]

length-yuan_text : (n : ℕ) → n / 100 ≤ max_yuan → length (yuan_text n) ≤ 13
unfolding yuan_text to_string
length-yuan_text n h = rw (decimals_two (n % 100) (omega arith)) (
    omega (
      arith,
      length-append (digits (suc (n / 100)) (n / 100))
          (b'.' ∷ (b'0' + n % 100 / 10) ∷ (b'0' + n % 100 % 10) ∷ []),
      length-digits-le 9 (suc (n / 100)) (n / 100) (omega arith),
    ))

pub digits-ne-nil : (f n : ℕ) → n < f → digits f n ≢ []
unfolding digits
digits-ne-nil zero n h e = absurd (omega arith)
digits-ne-nil (suc f) n h e = elim (Bool-cases (ltb n 10)) [
  | inl short ↦ cc (rw short at e)
  | inr more ↦ absurd (
      omega
        (arith, length-append (digits f (n / 10)) ((b'0' + n % 10) ∷ []), ap length (rw more at e)))
]

-- A text that begins with a digit has no sign.
signed_digits :
    (t rest : Bytes) → t ≢ [] → All IsDigit t → signed (t ++ rest) ≡ scan_all false (t ++ rest)
unfolding signed
signed_digits [] rest h k = absurd (h refl)
signed_digits (c ∷ t) rest h k = ground arith

signed-yuan_text : (n : ℕ) → signed (yuan_text n) ≡ scan_all false (yuan_text n)
unfolding yuan_text to_string
signed-yuan_text n =
    signed_digits (digits (suc (n / 100)) (n / 100)) _ (digits-ne-nil _ (n / 100) (omega arith))
      (digits-IsDigit _ (n / 100))

signed_minus : (t : Bytes) → signed (b'-' ∷ t) ≡ scan_all true t
unfolding signed
signed_minus t = refl

abbrev pub magnitude : ℤ → ℕ
magnitude z = pos_part z + neg_part z

pub negate_suc : (n : ℕ) → negate (n + 1) ≡ negsuc n
unfolding negate
negate_suc n = ground arith

signed_fen :
    (z : ℤ)
    → signed (fen_to_yuan_string z) ≡ (if leb (magnitude z / 100) max_yuan then some z else none)
unfolding fen_to_yuan_string
signed_fen (pos n) = signed-yuan_text n ∙ scan_text false n ∙ ground arith
signed_fen (negsuc n) =
    signed_minus (yuan_text (n + 1)) ∙ scan_text true (n + 1) ∙ ground (arith, negate_suc n)

short_enough :
    (z : ℤ) → magnitude z / 100 ≤ max_yuan → ltb 20 (length (fen_to_yuan_string z)) ≡ false
unfolding fen_to_yuan_string
short_enough (pos n) h = ground (arith, length-yuan_text n (omega arith))
short_enough (negsuc n) h = ground (arith, length-yuan_text (n + 1) (omega arith))

-- Reading a printed amount back gives the amount when its whole yuan are at most 1000000009, and
-- is refused otherwise; so nothing is read back as another amount.
pub yuan_string_to_fen-fen_to_yuan_string :
    (fen : ℤ)
    → yuan_string_to_fen (fen_to_yuan_string fen)
      ≡ (if leb (magnitude fen / 100) max_yuan then some fen else none)
unfolding yuan_string_to_fen
yuan_string_to_fen-fen_to_yuan_string fen = elim (Bool-cases (leb (magnitude fen / 100) max_yuan)) [
  | inl fits ↦ rw (short_enough fen (ground arith)) (signed_fen fen)
  | inr over ↦ ground (arith, signed_fen fen)
]
