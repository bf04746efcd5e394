-- ===== src/ReconcileService/Tests.antt =====
-- A bill and its reconciliation, and a witness.
use trade_reconcile_system.Base.{Option, [], false, if◌then◌else◌, none, refl, some, ◌+◌, ◌∷◌, ◌≡◌}
use trade_reconcile_system.Base.Bytes.{Bytes, codes, str_eq}
use trade_reconcile_system.Base.Int.{negsuc, pos}
use trade_reconcile_system.Bill.{parse_bill_line, parse_lines, pieces}
use trade_reconcile_system.Db.{Db, PaymentRow, ReconcileDiffRow}
use trade_reconcile_system.Db.Monad.{Env, World}
use trade_reconcile_system.Ids.{fresh_generator}
use trade_reconcile_system.Money.{finish, scan, scan_step, yuan_string_to_fen}
use trade_reconcile_system.Reconcile.{ReconcileSideRow}
use trade_reconcile_system.ReconcileService.{run_rows}
use trade_reconcile_system.ReconcileService.Atomic.{Ends}
use trade_reconcile_system.ReconcileService.Refines.{run_rows-Ends}

abbrev env : Env
env = record {
  clock = λ n. 1704067200000 + n;
  rounds = 5;
  db_now = 1704067200;
  write_compact = λ j. codes "{}";
  write_styled = λ j. codes "{ }";
}

abbrev paid_today : PaymentRow
paid_today = record {
  payment_no = codes "1";
  order_no = codes "42";
  channel = codes "MOCK";
  channel_trade_no = codes "T1";
  amount = pos 1990;
  status = 1;
  callback_time = codes "2024-01-01 08:00:00";
  raw_body = [];
}

abbrev shop : Db
shop = record {
  products = [];
  orders = [];
  idempotents = [];
  accounts = [];
  flows = [];
  payments = paid_today ∷ [];
  messages = [];
  notifies = [];
  batches = [];
  diffs = [];
}

abbrev start : World
start = record {
  committed = shop;
  working = shop;
  finished = false;
  generator = fresh_generator;
  faults = [];
}

abbrev day : Bytes
day = codes "2024-01-01"

abbrev bill_row : ReconcileSideRow
bill_row = record { channel_trade_no = codes "T1"; order_no = codes "42"; amount_fen = pos 1991 }

parses :
    (parse_bill_line (codes "T1,42,19.91,2024-01-01 08:00:00") ≡ some bill_row)
    × (parse_bill_line (codes "T1,42,19.91") ≡ none)
    × (parse_lines (pieces b';' (codes "# head;;T1,42,19.91,x;")) ≡ some (bill_row ∷ []))
unfolding parse_bill_line pieces parse_lines yuan_string_to_fen scan scan_step finish
parses = (refl, refl, refl)

run_rows-Ends_example :
    Ends day (bill_row ∷ []) start.committed (run_rows env day (bill_row ∷ []) start)
run_rows-Ends_example = run_rows-Ends env day (bill_row ∷ []) start

abbrev bills : Bytes → Option Bytes
bills path =
    if str_eq path (codes "scripts/bills/bill_2024-01-01.csv")
    then some (codes "T1,42,19.91,2024-01-01 08:00:00")
    else none

-- One unhandled difference of the day before.
abbrev open_diff : ReconcileDiffRow
open_diff = record {
  id = 1;
  batch_no = codes "B1";
  order_no = codes "42";
  channel_trade_no = codes "T1";
  local_amount = pos 1990;
  channel_amount = pos 1991;
  diff_type = 3;
  diff_amount = negsuc 0;
  handle_status = 0;
  handle_remark = none;
  handled_at = none;
}

abbrev with_diff : World
with_diff = record start { committed = record shop { diffs = open_diff ∷ [] } }
