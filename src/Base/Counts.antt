-- ===== src/Base/Counts.antt =====
-- Searching and counting rows together: what a unique key gives.
use trade_reconcile_system.Base.{
  Bool, Bool-cases, List, [], arith, count_where, find, if◌then◌else◌, inl, inr, some, true,
  update_where, ◌<◌, ◌∷◌, ◌≡◌, ◌≤◌,
}

module _ {ℓ} {A : Type ℓ} where
  count_where-le :
      (p q : A → Bool) (xs : List A)
      → ((x : A) → q x ≡ true → p x ≡ true)
      → count_where q xs ≤ count_where p xs
  unfolding count_where
  count_where-le p q [] imp = omega arith
  count_where-le p q (x ∷ xs) imp = elim (Bool-cases (q x)) [
    | inl hit ↦ rw hit (rw (imp x hit) (omega (arith, count_where-le p q xs imp)))
    | inr miss ↦ rw miss (ground (arith, count_where-le p q xs imp))
  ]

  find-counted :
      (p q : A → Bool) (xs : List A) {r : A}
      → find q xs ≡ some r
      → p r ≡ true
      → 0 < count_where p xs
  unfolding count_where find
  find-counted p q [] h k = cc
  find-counted p q (x ∷ xs) {r} h k = elim (Bool-cases (q x)) [
    | inl hit ↦ ground arith
    | inr miss ↦ ground (arith, find-counted p q xs {r = r})
  ]

  -- When one row only passes the test of a key, a row that is found and passes it is the one that
  -- a stricter test has counted.
  pub find-only :
      (p s q : A → Bool) (xs : List A) {r : A}
      → ((x : A) → s x ≡ true → p x ≡ true)
      → count_where p xs ≡ 1
      → 0 < count_where s xs
      → find q xs ≡ some r
      → p r ≡ true
      → s r ≡ true
  unfolding count_where find
  find-only p s q [] imp one some_row h k = cc h
  find-only p s q (x ∷ xs) {r} imp one some_row h k = elim (Bool-cases (s x)) [
    | inl strict ↦ elim (Bool-cases (q x)) [
      | inl hit ↦ ground arith
      | inr miss ↦ ground (arith, imp x strict, find-counted p q xs {r = r})
    ]
    | inr loose ↦ elim (Bool-cases (q x)) [
      | inl hit ↦ ground (arith, count_where-le p s xs imp)
      | inr miss ↦ ground (arith, find-counted p q xs {r = r}, find-only p s q xs {r = r} imp)
    ]
  ]

  -- A search that an UPDATE does not disturb finds the updated row.
  pub find-update_where :
      (p q : A → Bool) (f : A → A) (xs : List A)
      → ((x : A) → p (f x) ≡ p x)
      → {r : A} → find p xs ≡ some r
      → find p (update_where q f xs) ≡ some (if q r then f r else r)
  unfolding find update_where
  find-update_where p q f [] same h = cc
  find-update_where p q f (x ∷ xs) same {r} h = elim (Bool-cases (p x)) [
    | inl hit ↦ elim (Bool-cases (q x)) [
      | inl changed ↦ ground (arith, same x)
      | inr kept ↦ ground arith
    ]
    | inr miss ↦ elim (Bool-cases (q x)) [
      | inl changed ↦ ground (arith, same x, find-update_where p q f xs same {r = r})
      | inr kept ↦ ground (arith, find-update_where p q f xs same {r = r})
    ]
  ]
