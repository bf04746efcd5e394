-- ===== src/Bill.antt =====
-- The channel's bill: `parseBillLine` and the loop over the lines in `run`, of
-- src/services/ReconcileService.cc.
use mathlib.Core.Option
use mathlib.Core.List.{reverse}
use trade_reconcile_system.Base.{
  Bool, List, Option, [], if◌then◌else◌, none, some, true, ℕ, ◌==◌, ◌∷◌,
}
use trade_reconcile_system.Base.Bytes.{Bytes}
use trade_reconcile_system.Base.Int.{ℤ}
use trade_reconcile_system.Money.{yuan_string_to_fen}
use trade_reconcile_system.Reconcile.{ReconcileSideRow}

-- `std::getline` until the end of the text: the pieces between separators, without an empty last
-- one. `piece` is the piece that is being read, reversed, when it has begun.
pieces_from : ℕ → Bytes → Bytes → List Bytes
pieces_from sep [] [] = []
pieces_from sep (c ∷ piece) [] = reverse (c ∷ piece) ∷ []
pieces_from sep piece (c ∷ s) =
    let ended = pieces_from sep [] s in
    let longer = pieces_from sep (c ∷ piece) s in if c == sep then reverse piece ∷ ended else longer

unfoldable pub pieces : ℕ → Bytes → List Bytes
unfolding pieces_from
pieces sep s = pieces_from sep [] s

side_row : Bytes → Bytes → Option ℤ → Option ReconcileSideRow
side_row trade_no order_no none = none
side_row trade_no order_no (some fen) =
    some (record { channel_trade_no = trade_no; order_no = order_no; amount_fen = fen })

row_of_fields : List Bytes → Option ReconcileSideRow
unfolding side_row
row_of_fields (trade_no ∷ order_no ∷ amount ∷ callback_time ∷ rest) =
    side_row trade_no order_no (yuan_string_to_fen amount)
row_of_fields _ = none

-- `parseBillLine`: channelTradeNo,orderNo,amount,callbackTime
unfoldable pub parse_bill_line : Bytes → Option ReconcileSideRow
unfolding row_of_fields pieces
parse_bill_line line = row_of_fields (pieces b',' line)

skipped : Bytes → Bool
skipped [] = true
skipped (c ∷ line) = c == b'#'

-- The loop over the lines of the bill.
unfoldable pub parse_lines : List Bytes → Option (List ReconcileSideRow)
unfolding skipped parse_bill_line
parse_lines [] = some []
parse_lines (line ∷ lines) =
    let rest = parse_lines lines in
    if skipped line then rest else elim (parse_bill_line line) [
      | none ↦ none
      | some row ↦ Option.map (λ rows. row ∷ rows) rest
    ]
