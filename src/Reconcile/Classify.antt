-- ===== src/Reconcile/Classify.antt =====
-- `classifyReconcileDiffs` of src/services/ReconcileService.cc.
pub mod Exact
mod Tests
use trade_reconcile_system.Base.{List, Option, [], if◌then◌else◌, none, not, some, ◌++◌, ◌∷◌}
use trade_reconcile_system.Base.Bytes.{Bytes}
use trade_reconcile_system.Base.Int.{eq_ℤ, pos, to_i64, ℤ, ◌-ℤ◌}
use trade_reconcile_system.Base.SortedMap.{Map, insert, lookup}
use trade_reconcile_system.Reconcile.{
  ReconcileDiffType, ReconcileSideRow, amount_mismatch, channel_only, local_only,
}

pub record ClassifiedDiff : Type 0 where
  pub type : ReconcileDiffType
  pub channel_trade_no : Bytes
  pub order_no : Bytes
  pub local_fen : ℤ
  pub channel_fen : ℤ
  pub diff_fen : ℤ

-- `m[row.channelTradeNo] = row` for each row, from the first on.
unfoldable pub by_trade_no_from :
    Map ReconcileSideRow → List ReconcileSideRow → Map ReconcileSideRow
by_trade_no_from m [] = m
by_trade_no_from m (row ∷ rows) = by_trade_no_from (insert row.channel_trade_no row m) rows

unfoldable pub by_trade_no : List ReconcileSideRow → Map ReconcileSideRow
unfolding by_trade_no_from
by_trade_no rows = by_trade_no_from [] rows

-- The three loops: what each pushes for one entry, given the entry of the other side.
local_only_of : Bytes → ReconcileSideRow → Option ReconcileSideRow → List ClassifiedDiff
local_only_of trade_no row none =
    record {
      type = local_only;
      channel_trade_no = trade_no;
      order_no = row.order_no;
      local_fen = row.amount_fen;
      channel_fen = pos 0;
      diff_fen = row.amount_fen;
    }
    ∷ []
local_only_of trade_no row (some _) = []

channel_only_of : Bytes → ReconcileSideRow → Option ReconcileSideRow → List ClassifiedDiff
channel_only_of trade_no row none =
    record {
      type = channel_only;
      channel_trade_no = trade_no;
      order_no = row.order_no;
      local_fen = pos 0;
      channel_fen = row.amount_fen;
      diff_fen = to_i64 (pos 0 -ℤ row.amount_fen);
    }
    ∷ []
channel_only_of trade_no row (some _) = []

mismatch_of : Bytes → ReconcileSideRow → Option ReconcileSideRow → List ClassifiedDiff
mismatch_of trade_no row none = []
mismatch_of trade_no row (some other) =
    if not (eq_ℤ other.amount_fen row.amount_fen)
    then record {
      type = amount_mismatch;
      channel_trade_no = trade_no;
      order_no = row.order_no;
      local_fen = row.amount_fen;
      channel_fen = other.amount_fen;
      diff_fen = to_i64 (row.amount_fen -ℤ other.amount_fen);
    }
      ∷ []
    else []

-- `for (const auto& [tradeNo, row] : side)`, with `other.find(tradeNo)`.
unfoldable pub for_each :
    (Bytes → ReconcileSideRow → Option ReconcileSideRow → List ClassifiedDiff)
    → Map ReconcileSideRow
    → Map ReconcileSideRow
    → List ClassifiedDiff
for_each push other [] = []
for_each push other ((trade_no, row) ∷ side) =
    push trade_no row (lookup trade_no other) ++ for_each push other side

unfoldable pub classify_reconcile_diffs :
    List ReconcileSideRow → List ReconcileSideRow → List ClassifiedDiff
unfolding for_each by_trade_no local_only_of channel_only_of mismatch_of
classify_reconcile_diffs local channel =
    let l = by_trade_no local in
    let c = by_trade_no channel in
    for_each local_only_of c l ++ (for_each channel_only_of l c ++ for_each mismatch_of c l)
