-- ===== src/Money/Tests.antt =====
-- Runs of src/utils/MoneyUtil.cc on the inputs of tests/unit/test_money_util.cc, and witnesses.
use trade_reconcile_system.Base.{[], length, none, refl, some, ◌-◌, ◌^◌, ◌≡◌, ◌≢◌, ◌≤◌}
use trade_reconcile_system.Base.Bytes.{codes}
use trade_reconcile_system.Base.Decimal.{digits, to_string}
use trade_reconcile_system.Base.Int.{negsuc, pos}
use trade_reconcile_system.Money.{fen_to_yuan_string, finish, scan, scan_step, yuan_string_to_fen}
use trade_reconcile_system.Money.Accepts.{yuan_string_to_fen_bounds}
use trade_reconcile_system.Money.RoundTrip.{magnitude, yuan_string_to_fen-fen_to_yuan_string}

prints_negative : fen_to_yuan_string (negsuc 1249) ≡ codes "-12.50"
unfolding fen_to_yuan_string to_string digits
prints_negative = refl

prints_min : fen_to_yuan_string (negsuc (2 ^ 63 - 1)) ≡ codes "-92233720368547758.08"
unfolding fen_to_yuan_string to_string digits
prints_min = refl

reads_forms :
    (yuan_string_to_fen (codes "399.5") ≡ some (pos 39950))
    × (yuan_string_to_fen (codes "-12.50") ≡ some (negsuc 1249))
    × (yuan_string_to_fen (codes "399.001") ≡ none)
    × (yuan_string_to_fen (codes "1.2.3") ≡ none)
    × (yuan_string_to_fen (codes "-") ≡ none)
unfolding yuan_string_to_fen scan scan_step finish
reads_forms = (refl, refl, refl, refl, refl)

over_a_billion : yuan_string_to_fen (codes "1000000009.99") ≡ some (pos 100000000999)
unfolding yuan_string_to_fen scan scan_step finish
over_a_billion = refl

yuan_string_to_fen_bounds_example :
    (magnitude (pos 100000000999) ≤ 100000000999)
    × (length (codes "1000000009.99") ≤ 20)
    × (codes "1000000009.99" ≢ [])
yuan_string_to_fen_bounds_example =
    yuan_string_to_fen_bounds (codes "1000000009.99") (pos 100000000999) over_a_billion

yuan_string_to_fen-fen_to_yuan_string_example :
    yuan_string_to_fen (fen_to_yuan_string (negsuc 4)) ≡ some (negsuc 4)
yuan_string_to_fen-fen_to_yuan_string_example = yuan_string_to_fen-fen_to_yuan_string (negsuc 4)
