-- ===== src/Base/Decimal.antt =====
-- Decimal digits: std::to_string of an unsigned number, and the number that digits spell.
use Prim.Native.Nat.{ℕ, zero, suc, ◌+◌, ◌-◌, ◌*◌, ◌/◌, ◌%◌, ◌^◌, ◌≤◌, ◌<◌}
use mathlib.Core.Path.{◌≡◌, refl, ap}
use mathlib.Core.Logic.{inl, inr}
use mathlib.Core.List.{[], ◌∷◌, ◌++◌}
use native.Mathlib.Omega.{arith}
use native.Mathlib.Nat.{pow-suc}
use trade_reconcile_system.Base.Tests.{ltb, if◌then◌else◌, Bool-cases}
use trade_reconcile_system.Base.Lists.{All, All-append, length, length-append}
use trade_reconcile_system.Base.Bytes.{Bytes, IsDigit}

-- The digits of n, most significant first. A number has fewer digits than its successor is large.
unfoldable pub digits : ℕ → ℕ → Bytes
digits zero n = []
digits (suc f) n =
    let rest = digits f (n / 10) ++ (b'0' + n % 10) ∷ [] in
    if ltb n 10 then (b'0' + n) ∷ [] else rest

unfoldable pub to_string : ℕ → Bytes
to_string n = digits (suc n) n

-- The number that a text spells behind the number already read.
abbrev pub value_from : ℕ → Bytes → ℕ
value_from v [] = v
value_from v (c ∷ s) = value_from (v * 10 + (c - b'0')) s

value_from-append : (v : ℕ) (s t : Bytes) → value_from v (s ++ t) ≡ value_from (value_from v s) t
value_from-append v [] t = refl
value_from-append v (c ∷ s) t = value_from-append (v * 10 + (c - b'0')) s t

value_from-digits : (f n : ℕ) → n < f → value_from 0 (digits f n) ≡ n
unfolding digits
value_from-digits zero n h = absurd (omega arith)
value_from-digits (suc f) n h = ground (
  arith,
  value_from-append 0 (digits f (n / 10)) ((b'0' + n % 10) ∷ []),
  value_from-digits f (n / 10),
)

-- Reading the printed number back gives the number.
pub value_from-to_string : (n : ℕ) → value_from 0 (to_string n) ≡ n
unfolding to_string
value_from-to_string n = value_from-digits (suc n) n (omega arith)

-- So two numbers with one print are equal.
pub to_string-injective : (m n : ℕ) → to_string m ≡ to_string n → m ≡ n
to_string-injective m n e =
    omega (arith, value_from-to_string m, value_from-to_string n, ap (value_from 0) e)

pub digits-IsDigit : (f n : ℕ) → All IsDigit (digits f n)
unfolding digits
digits-IsDigit zero n = tt
digits-IsDigit (suc f) n = elim (Bool-cases (ltb n 10)) [
  | inl short ↦ rw short ((omega arith, ground arith), tt)
  | inr more ↦ rw more (
      All-append IsDigit (digits f (n / 10)) ((b'0' + n % 10) ∷ []) (digits-IsDigit f (n / 10))
        ((omega arith, omega arith), tt))
]

pub to_string-IsDigit : (n : ℕ) → All IsDigit (to_string n)
unfolding to_string
to_string-IsDigit n = digits-IsDigit (suc n) n

-- A number below 10^k prints in k digits at most, for k at least one.
pub length-digits-le : (k f n : ℕ) → n < 10 ^ suc k → length (digits f n) ≤ suc k
unfolding digits
length-digits-le k zero n h = omega arith
length-digits-le zero (suc f) n h = ground arith
length-digits-le (suc k) (suc f) n h = ground (
  arith,
  length-digits-le k f (n / 10) (omega (arith, pow-suc 10 (suc k))),
  length-append (digits f (n / 10)) ((b'0' + n % 10) ∷ []),
)

-- Numbers of one digit and of two.
pub digits_one : (f n : ℕ) → n < f → n < 10 → digits f n ≡ (b'0' + n) ∷ []
unfolding digits
digits_one zero n h k = absurd (omega arith)
digits_one (suc f) n h k = ground arith

pub digits_two :
    (f n : ℕ) → n < f → 10 ≤ n → n < 100 → digits f n ≡ (b'0' + n / 10) ∷ (b'0' + n % 10) ∷ []
unfolding digits
digits_two zero n h k l = absurd (omega arith)
digits_two (suc f) n h k l = ground (arith, digits_one f (n / 10) (omega arith) (omega arith))
