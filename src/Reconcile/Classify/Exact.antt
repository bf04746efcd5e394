-- ===== src/Reconcile/Classify/Exact.antt =====
-- The classification, trade number by trade number: the differences that carry a trade number are
-- the ones that its last rows on the two sides call for.
-- The specification: the row that stands for a trade number, and the difference that is due.
use mathlib.Core.Path.{ap₂}
use trade_reconcile_system.Base.{
  Bool, Bool-cases, List, Option, [], append-nil, arith, false, if◌then◌else◌, inl, inr, none, refl,
  some, true, ◌++◌, ◌∙◌, ◌∷◌, ◌≡◌, ◌⊎◌,
}
use trade_reconcile_system.Base.Bytes.{Bytes, str_eq, str_eq→eq}
use trade_reconcile_system.Base.Int.{eq_ℤ, pos, to_i64, ℤ, ◌-ℤ◌}
use trade_reconcile_system.Base.SortedMap.{
  IsSorted, Map, insert, insert-IsSorted, lookup, lookup-Above, lookup-insert,
}
use trade_reconcile_system.Reconcile.{ReconcileSideRow, amount_mismatch, channel_only, local_only}
use trade_reconcile_system.Reconcile.Classify.{
  ClassifiedDiff, by_trade_no, by_trade_no_from, channel_only_of, classify_reconcile_diffs,
  for_each, local_only_of, mismatch_of,
}

unfoldable pub last_row : Bytes → List ReconcileSideRow → Option ReconcileSideRow
last_row t [] = none
last_row t (row ∷ rows) = elim (last_row t rows) [
  | none ↦ if str_eq t row.channel_trade_no then some row else none
  | some later ↦ some later
]

-- The difference due to the local row and the channel row of a trade number: what one side alone
-- has, with 0 for the other side; both amounts, when they differ, with the local order number; and the
-- local amount less the channel's, in 64 bits.
unfoldable pub due : Bytes → Option ReconcileSideRow → Option ReconcileSideRow → List ClassifiedDiff
due t none none = []
due t (some l) none =
    record {
      type = local_only;
      channel_trade_no = t;
      order_no = l.order_no;
      local_fen = l.amount_fen;
      channel_fen = pos 0;
      diff_fen = l.amount_fen;
    }
    ∷ []
due t none (some c) =
    record {
      type = channel_only;
      channel_trade_no = t;
      order_no = c.order_no;
      local_fen = pos 0;
      channel_fen = c.amount_fen;
      diff_fen = to_i64 (pos 0 -ℤ c.amount_fen);
    }
    ∷ []
due t (some l) (some c) =
    if eq_ℤ l.amount_fen c.amount_fen
    then []
    else record {
      type = amount_mismatch;
      channel_trade_no = t;
      order_no = l.order_no;
      local_fen = l.amount_fen;
      channel_fen = c.amount_fen;
      diff_fen = to_i64 (l.amount_fen -ℤ c.amount_fen);
    }
      ∷ []

-- The differences of one trade number.
unfoldable pub with_trade_no : Bytes → List ClassifiedDiff → List ClassifiedDiff
with_trade_no t [] = []
with_trade_no t (d ∷ ds) =
    if str_eq t d.channel_trade_no then d ∷ with_trade_no t ds else with_trade_no t ds

with_trade_no-append :
    (t : Bytes) (xs ys : List ClassifiedDiff)
    → with_trade_no t (xs ++ ys) ≡ with_trade_no t xs ++ with_trade_no t ys
unfolding with_trade_no
with_trade_no-append t [] ys = refl
with_trade_no-append t (x ∷ xs) ys = ground (arith, with_trade_no-append t xs ys)

by_trade_no_from-IsSorted :
    (m : Map ReconcileSideRow) (rows : List ReconcileSideRow)
    → IsSorted m
    → IsSorted (by_trade_no_from m rows)
unfolding by_trade_no_from
by_trade_no_from-IsSorted m [] s = s
by_trade_no_from-IsSorted m (row ∷ rows) s =
    by_trade_no_from-IsSorted (insert row.channel_trade_no row m) rows
      (insert-IsSorted row.channel_trade_no row m s)

pub by_trade_no-IsSorted : (rows : List ReconcileSideRow) → IsSorted (by_trade_no rows)
unfolding by_trade_no
by_trade_no-IsSorted rows = by_trade_no_from-IsSorted [] rows tt

abbrev or_else {ℓ} : {A : Type ℓ} → Option A → Option A → Option A
or_else none o = o
or_else (some a) o = some a

lookup-by_trade_no_from :
    (t : Bytes) (m : Map ReconcileSideRow) (rows : List ReconcileSideRow)
    → lookup t (by_trade_no_from m rows) ≡ or_else (last_row t rows) (lookup t m)
unfolding by_trade_no_from last_row
lookup-by_trade_no_from t m [] = refl
lookup-by_trade_no_from t m (row ∷ rows) = ground (
  arith,
  lookup-by_trade_no_from t (insert row.channel_trade_no row m) rows,
  lookup-insert t row.channel_trade_no row m,
)

-- The map holds the last row of each trade number.
pub lookup-by_trade_no :
    (t : Bytes) (rows : List ReconcileSideRow) → lookup t (by_trade_no rows) ≡ last_row t rows
unfolding by_trade_no lookup
lookup-by_trade_no t rows = ground (arith, lookup-by_trade_no_from t [] rows)

-- What a loop pushes for one trade number, given the rows of the other side and of its own.
abbrev pushed :
    (Bytes → ReconcileSideRow → Option ReconcileSideRow → List ClassifiedDiff)
    → Bytes
    → Option ReconcileSideRow
    → Option ReconcileSideRow
    → List ClassifiedDiff
pushed push t other none = []
pushed push t other (some row) = push t row other

eq_ℤ_sym : (a b : ℤ) → eq_ℤ a b ≡ eq_ℤ b a
eq_ℤ_sym a b = ground arith

parts :
    (t : Bytes) (l c : Option ReconcileSideRow)
    → pushed local_only_of t c l ++ (pushed channel_only_of t l c ++ pushed mismatch_of t c l)
      ≡ due t l c
unfolding due local_only_of channel_only_of mismatch_of
parts t none none = refl
parts t (some l) none = refl
parts t none (some c) = refl
parts t (some l) (some c) = differs (Bool-cases (eq_ℤ l.amount_fen c.amount_fen))
  where
    differs :
        (eq_ℤ l.amount_fen c.amount_fen ≡ true) ⊎ (eq_ℤ l.amount_fen c.amount_fen ≡ false)
        → mismatch_of t l (some c) ≡ due t (some l) (some c)
    differs (inl same) = rw (same, eq_ℤ_sym c.amount_fen l.amount_fen, same) refl
    differs (inr other) = rw (other, eq_ℤ_sym c.amount_fen l.amount_fen, other) refl

-- A loop whose pushes carry the trade number of the entry.
module _ (push : Bytes → ReconcileSideRow → Option ReconcileSideRow → List ClassifiedDiff)
    (own : (t k : Bytes) (row : ReconcileSideRow) (o : Option ReconcileSideRow)
      → with_trade_no t (push k row o) ≡ (if str_eq t k then push k row o else []))
    (t : Bytes) (other : Map ReconcileSideRow) where
  with_trade_no-for_each :
      (side : Map ReconcileSideRow)
      → IsSorted side
      → with_trade_no t (for_each push other side) ≡ pushed push t (lookup t other) (lookup t side)
  unfolding for_each lookup with_trade_no
  with_trade_no-for_each [] s = refl
  with_trade_no-for_each ((k, row) ∷ side) (a, s) =
      with_trade_no-append t (push k row (lookup k other)) (for_each push other side)
      ∙ ap₂ ◌++◌ (own t k row (lookup k other)) (with_trade_no-for_each side s)
      ∙ entry (str_eq t k) refl
    where
      entry :
          (b : Bool)
          → str_eq t k ≡ b
          → (if b then push k row (lookup k other) else [])
              ++ pushed push t (lookup t other) (lookup t side)
            ≡ pushed push t (lookup t other) (if b then some row else lookup t side)
      entry true hit =
          let e = str_eq→eq t k hit in
          rw (e, lookup-Above k side a) (append-nil (push k row (lookup k other)))
      entry false miss = refl

local_only_of-own :
    (t k : Bytes) (row : ReconcileSideRow) (o : Option ReconcileSideRow)
    → with_trade_no t (local_only_of k row o) ≡ (if str_eq t k then local_only_of k row o else [])
unfolding local_only_of with_trade_no
local_only_of-own t k row o = ground arith

channel_only_of-own :
    (t k : Bytes) (row : ReconcileSideRow) (o : Option ReconcileSideRow)
    → with_trade_no t (channel_only_of k row o)
      ≡ (if str_eq t k then channel_only_of k row o else [])
unfolding channel_only_of with_trade_no
channel_only_of-own t k row o = ground arith

mismatch_of-own :
    (t k : Bytes) (row : ReconcileSideRow) (o : Option ReconcileSideRow)
    → with_trade_no t (mismatch_of k row o) ≡ (if str_eq t k then mismatch_of k row o else [])
unfolding mismatch_of with_trade_no
mismatch_of-own t k row o = ground arith

-- For every trade number, the differences reported under it are exactly the ones due to the last
-- local row and the last channel row that carry it: none when both sides agree or neither has it,
-- one otherwise, with its type, order number and amounts.
pub classify_reconcile_diffs_exact :
    (t : Bytes) (local channel : List ReconcileSideRow)
    → with_trade_no t (classify_reconcile_diffs local channel)
      ≡ due t (last_row t local) (last_row t channel)
unfolding classify_reconcile_diffs
classify_reconcile_diffs_exact t local channel =
    let l = by_trade_no local in
    let c = by_trade_no channel in
    let sl = by_trade_no-IsSorted local in
    let sc = by_trade_no-IsSorted channel in
    with_trade_no-append t (for_each local_only_of c l) _
    ∙ ap₂ ◌++◌ (with_trade_no-for_each local_only_of local_only_of-own t c l sl) (
        with_trade_no-append t (for_each channel_only_of l c) (for_each mismatch_of c l)
        ∙ ap₂ ◌++◌ (with_trade_no-for_each channel_only_of channel_only_of-own t l c sc)
            (with_trade_no-for_each mismatch_of mismatch_of-own t c l sl))
    ∙ rw (lookup-by_trade_no t local, lookup-by_trade_no t channel)
        (parts t (last_row t local) (last_row t channel))
