-- ===== src/Base/Bits.antt =====
-- `|` on numbers whose bits do not meet is `+`.
use Prim.Native.Nat.{digits as binary, max, bit_or, bit_or-bitwise}
use native.Mathlib.Nat.{pow-suc}
use trade_reconcile_system.Base.{arith, refl, suc, zero, ℕ, ◌*◌, ◌+◌, ◌/◌, ◌<◌, ◌^◌, ◌∙◌, ◌≡◌, ◌≤◌}

abbrev or_digits : ℕ → ℕ → ℕ → ℕ
or_digits f a b = binary (λ c. c) max f a b

double : (x k : ℕ) → x * 2 ^ suc k ≡ 2 * (x * 2 ^ k)
double x k = rw (pow-suc 2 k) (omega arith)

or_digits_disjoint : (f k a b x : ℕ) → a ≤ f → a ≡ x * 2 ^ k → b < 2 ^ k → or_digits f a b ≡ a + b
or_digits_disjoint zero k a b x h e l = omega arith
or_digits_disjoint (suc f) k zero b x h e l = omega arith
or_digits_disjoint (suc f) zero (suc a) b x h e l = omega (
  arith,
  or_digits_disjoint f zero (suc a / 2) (b / 2) (suc a / 2) (omega arith) (omega arith)
      (omega arith),
)
or_digits_disjoint (suc f) (suc k) (suc a) b x h e l = omega (
  arith,
  double x k,
  pow-suc 2 k,
  or_digits_disjoint f k (suc a / 2) (b / 2) x (omega arith) (omega (arith, double x k))
      (omega (arith, pow-suc 2 k)),
)

-- A multiple of 2^k joined with a number below 2^k.
pub bit_or_disjoint : (k x b : ℕ) → b < 2 ^ k → bit_or (x * 2 ^ k) b ≡ x * 2 ^ k + b
bit_or_disjoint k x b h =
    bit_or-bitwise (x * 2 ^ k) b
    ∙ or_digits_disjoint (x * 2 ^ k) k (x * 2 ^ k) b x (omega arith) refl h
