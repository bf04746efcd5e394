-- ===== src/Base/Lists.antt =====
-- Lists measured by native numbers, searched by Boolean tests; `All` by recursion.
use Prim.Native.Nat.{ℕ, suc, ◌+◌}
use mathlib.Core.Path.{◌≡◌, refl}
use mathlib.Core.Bool.{Bool, true, false}
use mathlib.Core.List.{List, [], ◌∷◌, ◌++◌}
use mathlib.Core.Logic.{inl, inr}
use mathlib.Core.Option.{Option, none, some}
use native.Mathlib.Omega.{arith}
use trade_reconcile_system.Base.Tests.{if◌then◌else◌, Bool-cases}

module _ {ℓ} {A : Type ℓ} where
  abbrev pub length : List A → ℕ
  length [] = 0
  length (x ∷ xs) = suc (length xs)

  pub length-append : (xs ys : List A) → length (xs ++ ys) ≡ length xs + length ys
  length-append [] ys = omega arith
  length-append (x ∷ xs) ys = omega (arith, length-append xs ys)

  -- The first row that a test accepts.
  unfoldable pub find : (A → Bool) → List A → Option A
  find p [] = none
  find p (x ∷ xs) = if p x then some x else find p xs

  -- Change each row that a test accepts (the body of an UPDATE).
  unfoldable pub update_where : (A → Bool) → (A → A) → List A → List A
  update_where p f [] = []
  update_where p f (x ∷ xs) = (if p x then f x else x) ∷ update_where p f xs

  -- How many rows a test accepts (the affected rows of an UPDATE).
  unfoldable pub count_where : (A → Bool) → List A → ℕ
  count_where p [] = 0
  count_where p (x ∷ xs) = if p x then suc (count_where p xs) else count_where p xs

  abbrev pub All {κ} : (A → Type κ) → List A → Type κ
  All P [] = Unit
  All P (x ∷ xs) = P x × All P xs

  pub All-append {κ} : (P : A → Type κ) (xs ys : List A) → All P xs → All P ys → All P (xs ++ ys)
  All-append P [] ys _ hy = hy
  All-append P (x ∷ xs) ys (px, hx) hy = (px, All-append P xs ys hx hy)

  -- A row appended at the end is found only after the rows before it.
  pub find-append :
      (p : A → Bool) (xs : List A) (y : A)
      → find p xs ≡ none
      → find p (xs ++ y ∷ []) ≡ (if p y then some y else none)
  unfolding find
  find-append p [] y h = refl
  find-append p (x ∷ xs) y h = ground (arith, find-append p xs y)

  pub find-append_some :
      (p : A → Bool) (xs ys : List A) {r : A} → find p xs ≡ some r → find p (xs ++ ys) ≡ some r
  unfolding find
  find-append_some p [] ys h = cc
  find-append_some p (x ∷ xs) ys {r} h = ground (arith, find-append_some p xs ys {r = r})

  pub find_sound : (p : A → Bool) (xs : List A) {r : A} → find p xs ≡ some r → p r ≡ true
  unfolding find
  find_sound p [] h = cc
  find_sound p (x ∷ xs) {r} h = elim (Bool-cases (p x)) [
    | inl hit ↦ ground arith
    | inr miss ↦ ground (arith, find_sound p xs {r = r})
  ]

  pub count_where-append :
      (p : A → Bool) (xs ys : List A)
      → count_where p (xs ++ ys) ≡ count_where p xs + count_where p ys
  unfolding count_where
  count_where-append p [] ys = omega arith
  count_where-append p (x ∷ xs) ys = ground (arith, count_where-append p xs ys)

  pub update_where-append :
      (p : A → Bool) (f : A → A) (xs ys : List A)
      → update_where p f (xs ++ ys) ≡ update_where p f xs ++ update_where p f ys
  unfolding update_where
  update_where-append p f [] ys = refl
  update_where-append p f (x ∷ xs) ys = rw (update_where-append p f xs ys)

  -- A search that finds nothing accepts no row.
  pub find-none :
      (p : A → Bool) (x : A) (xs : List A)
      → find p (x ∷ xs) ≡ none
      → (p x ≡ false) × (find p xs ≡ none)
  unfolding find
  find-none p x xs h = elim (Bool-cases (p x)) [
    | inl hit ↦ ground arith
    | inr miss ↦ (miss, ground arith)
  ]

  -- An UPDATE whose rows are among those that a search does not find changes nothing.
  pub update_where-none :
      (p q : A → Bool) (f : A → A) (xs : List A)
      → ((x : A) → p x ≡ false → q x ≡ false)
      → find p xs ≡ none
      → update_where q f xs ≡ xs
  unfolding update_where
  update_where-none p q f [] imp h = refl
  update_where-none p q f (x ∷ xs) imp h =
      let (miss, rest) = find-none p x xs h in rw (imp x miss, update_where-none p q f xs imp rest)

  -- An UPDATE whose new rows fail its own test leaves no row for a second one.
  pub count_where-update_where :
      (p : A → Bool) (f : A → A) (xs : List A)
      → ((x : A) → p x ≡ true → p (f x) ≡ false)
      → count_where p (update_where p f xs) ≡ 0
  unfolding count_where update_where
  count_where-update_where p f [] h = refl
  count_where-update_where p f (x ∷ xs) h = elim (Bool-cases (p x)) [
    | inl hit ↦ rw hit (rw (h x hit) (count_where-update_where p f xs h))
    | inr miss ↦ rw miss (rw miss (count_where-update_where p f xs h))
  ]
