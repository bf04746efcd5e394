-- ===== src/Reconcile/Classify/Tests.antt =====
-- Runs on the cases of tests/unit/test_reconcile_diff.cc, and witnesses.
use trade_reconcile_system.Base.{List, String, [], map, refl, ℕ, ◌∷◌, ◌≡◌}
use trade_reconcile_system.Base.Bytes.{codes, str_eq, str_lt}
use trade_reconcile_system.Base.Int.{negsuc, pos, to_i64, ℤ, ◌-ℤ◌}
use trade_reconcile_system.Base.SortedMap.{insert, lookup}
use trade_reconcile_system.Reconcile.{ReconcileSideRow, diff_type_code}
use trade_reconcile_system.Reconcile.Classify.{by_trade_no, classify_reconcile_diffs, for_each}
use trade_reconcile_system.Reconcile.Classify.Exact.{
  classify_reconcile_diffs_exact, due, last_row, with_trade_no,
}

abbrev row : String → String → ℤ → ReconcileSideRow
row trade order amount = record {
  channel_trade_no = codes trade;
  order_no = codes order;
  amount_fen = amount;
}

abbrev local : List ReconcileSideRow
local = row "T1" "O1" (pos 100) ∷ row "T2" "O2" (pos 300) ∷ row "T3" "O3" (pos 5) ∷ []

abbrev channel : List ReconcileSideRow
channel = row "T4" "O4" (pos 70) ∷ row "T2" "O2" (pos 350) ∷ row "T3" "O3" (pos 5) ∷ []

types :
    map {B = ℕ × ℤ}
      (λ d. (diff_type_code d.type, d.diff_fen))
      (classify_reconcile_diffs local channel)
    ≡ (1, pos 100) ∷ (2, negsuc 69) ∷ (3, negsuc 49) ∷ []
unfolding classify_reconcile_diffs by_trade_no for_each insert lookup str_lt str_eq to_i64 ◌-ℤ◌
    diff_type_code
types = refl

classify_reconcile_diffs_exact_example :
    with_trade_no (codes "T2") (classify_reconcile_diffs local channel)
    ≡ due (codes "T2") (last_row (codes "T2") local) (last_row (codes "T2") channel)
classify_reconcile_diffs_exact_example = classify_reconcile_diffs_exact (codes "T2") local channel
