-- ===== src/Base/SortedMap.antt =====
-- std::map<std::string, V>: the entries in the order of their keys, which is how a range-for
-- visits them.
use trade_reconcile_system.Base.{
  Bool-cases, List, Option, [], arith, if◌then◌else◌, inl, inr, none, refl, some, true, ◌∷◌, ◌≡◌,
}
use trade_reconcile_system.Base.Bytes.{
  Bytes, neither_lt, str_eq, str_eq_refl, str_eq→eq, str_lt, str_lt_irrefl, str_lt_trans,
}

abbrev pub Map {ℓ} : Type ℓ → Type ℓ
Map V = List (Bytes × V)

module _ {ℓ} {V : Type ℓ} where
  -- `m[k] = v`
  unfoldable pub insert : Bytes → V → Map V → Map V
  insert k v [] = (k, v) ∷ []
  insert k v ((j, w) ∷ m) =
      if str_lt k j
      then (k, v) ∷ (j, w) ∷ m
      else if str_lt j k
      then (j, w) ∷ insert k v m
      else (k, v) ∷ m

  -- `m.find(k)`
  unfoldable pub lookup : Bytes → Map V → Option V
  lookup k [] = none
  lookup k ((j, w) ∷ m) = if str_eq k j then some w else lookup k m

  -- Every key is above k.
  abbrev pub Above : Bytes → Map V → Type 0
  Above k [] = Unit
  Above k ((j, w) ∷ m) = (str_lt k j ≡ true) × Above k m

  abbrev pub IsSorted : Map V → Type 0
  IsSorted [] = Unit
  IsSorted ((j, w) ∷ m) = Above j m × IsSorted m

  pub lookup-insert :
      (t k : Bytes) (v : V) (m : Map V)
      → lookup t (insert k v m) ≡ (if str_eq t k then some v else lookup t m)
  unfolding lookup insert
  lookup-insert t k v [] = refl
  lookup-insert t k v ((j, w) ∷ m) = ground (
    arith,
    lookup-insert t k v m,
    neither_lt k j,
    str_eq→eq t k,
    str_eq→eq t j,
    str_lt_irrefl k,
    str_eq_refl k,
    str_eq_refl j,
  )

  Above-trans : (k j : Bytes) (m : Map V) → str_lt k j ≡ true → Above j m → Above k m
  Above-trans k j [] h a = tt
  Above-trans k j ((i, w) ∷ m) h (b, a) = (str_lt_trans k j i h b, Above-trans k j m h a)

  insert-Above :
      (i k : Bytes) (v : V) (m : Map V) → str_lt i k ≡ true → Above i m → Above i (insert k v m)
  unfolding insert
  insert-Above i k v [] h a = (h, tt)
  insert-Above i k v ((j, w) ∷ m) h a = ground (arith, insert-Above i k v m h a.1)

  pub insert-IsSorted : (k : Bytes) (v : V) (m : Map V) → IsSorted m → IsSorted (insert k v m)
  unfolding insert
  insert-IsSorted k v [] s = (tt, tt)
  insert-IsSorted k v ((j, w) ∷ m) (a, s) = elim (Bool-cases (str_lt k j)) [
    | inl below ↦ rw below ((below, Above-trans k j m below a), (a, s))
    | inr other ↦ rw other (elim (Bool-cases (str_lt j k)) [
      | inl above ↦ rw above (insert-Above j k v m above a, insert-IsSorted k v m s)
      | inr neither ↦ rw neither (rw (neither_lt k j other neither) a, s)
    ])
  ]

  -- A key below all keys is not there.
  pub lookup-Above : (k : Bytes) (m : Map V) → Above k m → lookup k m ≡ none
  unfolding lookup
  lookup-Above k [] a = refl
  lookup-Above k ((j, w) ∷ m) (b, a) =
      ground (arith, lookup-Above k m a, str_eq→eq k j, str_lt_irrefl k)
