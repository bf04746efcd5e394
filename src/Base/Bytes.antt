-- ===== src/Base/Bytes.antt =====
-- A std::string as the list of its bytes: equality, lexicographic order, decimal digits.
use Prim.Native.Char.{code}
use trade_reconcile_system.Base.{
  Bool, List, String, [], arith, false, inl, inr, leb, ltb, refl, true, ℕ, ◌&&◌, ◌==◌, ◌||◌, ◌∷◌,
  ◌≡◌, ◌≤◌, ◌⊎◌,
}

abbrev pub Bytes : Type 0
Bytes = List ℕ

-- The code points of a literal; these are its bytes when the text is ASCII.
abbrev pub codes : String → Bytes
codes String.[] = []
codes (String.◌∷◌ c s) = code c ∷ codes s

-- operator== of std::string
unfoldable pub str_eq : Bytes → Bytes → Bool
str_eq [] [] = true
str_eq [] (d ∷ t) = false
str_eq (c ∷ s) [] = false
str_eq (c ∷ s) (d ∷ t) = c == d && str_eq s t

pub str_eq→eq : (s t : Bytes) → str_eq s t ≡ true → s ≡ t
unfolding str_eq
str_eq→eq [] [] h = refl
str_eq→eq [] (d ∷ t) h = cc
str_eq→eq (c ∷ s) [] h = cc
str_eq→eq (c ∷ s) (d ∷ t) h = ground (arith, str_eq→eq s t)

pub str_eq_refl : (s : Bytes) → str_eq s s ≡ true
unfolding str_eq
str_eq_refl [] = refl
str_eq_refl (c ∷ s) = ground (arith, str_eq_refl s)

pub str_eq_sym : (s t : Bytes) → str_eq s t ≡ str_eq t s
unfolding str_eq
str_eq_sym [] [] = refl
str_eq_sym [] (d ∷ t) = refl
str_eq_sym (c ∷ s) [] = refl
str_eq_sym (c ∷ s) (d ∷ t) = ground (arith, str_eq_sym s t)

-- operator< of std::string, the order of std::map's keys
unfoldable pub str_lt : Bytes → Bytes → Bool
str_lt s [] = false
str_lt [] (d ∷ t) = true
str_lt (c ∷ s) (d ∷ t) = ltb c d || c == d && str_lt s t

pub str_lt_irrefl : (s : Bytes) → str_lt s s ≡ false
unfolding str_lt
str_lt_irrefl [] = refl
str_lt_irrefl (c ∷ s) = ground (arith, str_lt_irrefl s)

pub str_lt_trans : (s t u : Bytes) → str_lt s t ≡ true → str_lt t u ≡ true → str_lt s u ≡ true
unfolding str_lt
str_lt_trans s [] u h k = cc
str_lt_trans s (d ∷ t) [] h k = cc
str_lt_trans [] (d ∷ t) (e ∷ u) h k = refl
str_lt_trans (c ∷ s) (d ∷ t) (e ∷ u) h k = ground (arith, str_lt_trans s t u)

-- Two strings are equal, or one is below the other.
pub str_lt_total : (s t : Bytes) → (s ≡ t) ⊎ (str_lt s t ≡ true) ⊎ (str_lt t s ≡ true)
unfolding str_lt
str_lt_total [] [] = inl refl
str_lt_total [] (d ∷ t) = inr (inl refl)
str_lt_total (c ∷ s) [] = inr (inr refl)
str_lt_total (c ∷ s) (d ∷ t) = ground (arith, str_lt_total s t)

-- Keys that neither order tells apart are equal.
pub neither_lt : (s t : Bytes) → str_lt s t ≡ false → str_lt t s ≡ false → s ≡ t
neither_lt s t h k = ground (arith, str_lt_total s t)

-- Whether a string holds a byte.
unfoldable pub contains_byte : ℕ → Bytes → Bool
contains_byte b [] = false
contains_byte b (c ∷ s) = c == b || contains_byte b s

abbrev pub is_digit : ℕ → Bool
is_digit c = leb b'0' c && leb c b'9'

abbrev pub IsDigit : ℕ → Type 0
IsDigit c = (b'0' ≤ c) × (c ≤ b'9')
