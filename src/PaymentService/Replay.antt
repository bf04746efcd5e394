-- ===== src/PaymentService/Replay.antt =====
-- A callback that the channel sends again after its payment has been recorded.
use mathlib.Core.Option
use trade_reconcile_system.Base.{
  Bool, Bool-cases, List, Option-cases, [], ap, arith, false, find, find-append, find-none,
  if◌then◌else◌, inl, inr, none, refl, some, some_inj, sym, true, ℕ, ◌++◌, ◌||◌, ◌∙◌, ◌∷◌, ◌≡◌,
}
use trade_reconcile_system.Base.Bytes.{Bytes, str_eq, str_eq_refl}
use trade_reconcile_system.Base.Calendar.{format_time}
use trade_reconcile_system.Base.Counts.{find-update_where}
use trade_reconcile_system.Base.Int.{eq_ℤ, pos, ℤ}
use trade_reconcile_system.Channel.{
  Settings, epoch_to_beijing, signed_by_channel, supported_channel,
}
use trade_reconcile_system.Dao.Order.{find_order, has_order_no, order_of_row, pay_rows, payable}
use trade_reconcile_system.Dao.Payment.{
  duplicate, find_payment, fits_payment, get_by_channel_trade_no, insert_payment, insert_with_dedup,
  payment_clashes, payment_of_row, payment_row, same_trade,
}
use trade_reconcile_system.Db.{Db, OrderRow, PaymentRow}
use trade_reconcile_system.Db.Monad.{
  Env, World, begin_transaction, done, exec, exec_on, guard_exit, in_transaction, pure, require,
  resume, transaction, ◌>>=◌, ◌>>◌,
}
use trade_reconcile_system.Db.Text.{sql_eq, sql_eq_refl}
use trade_reconcile_system.Ids.{Generator, generated, next_number}
use trade_reconcile_system.Models.Order.{Order, paid}
use trade_reconcile_system.Models.Payment.{Payment, PaymentCallbackReq}
use trade_reconcile_system.Money.{yuan_string_to_fen}
use trade_reconcile_system.PaymentService.{
  after_insert, body, bound_to, callback_transaction, caught, handle_callback, nothing, replayed,
}
use trade_reconcile_system.PaymentService.Atomic.{Paid, paid_db}
use trade_reconcile_system.PaymentService.Stages.{checks}
use trade_reconcile_system.PaymentService.Succeeds.{builds, payment_at}

-- A search that finds a row by one test finds some row by a wider one.
find-wider :
    {A : Type 0} (p q : A → Bool) (xs : List A) {r : A}
    → ((x : A) → p x ≡ true → q x ≡ true)
    → find p xs ≡ some r
    → (s : A) × (find q xs ≡ some s)
unfolding find
find-wider p q [] imp h = cc
find-wider p q (x ∷ xs) {r} imp h = elim (Bool-cases (q x)) [
  | inl hit ↦ (x, rw hit refl)
  | inr miss ↦ elim (Bool-cases (p x)) [
    | inl narrow ↦ cc (sym miss ∙ imp x narrow)
    | inr other ↦
        let (s, found) = find-wider p q xs {r = r} imp (rw other at h) in (s, rw miss found)
  ]
]

or_true : (a : Bool) {b : Bool} → b ≡ true → (a || b) ≡ true
or_true true h = refl
or_true false h = h

-- A recorded payment of the trade is a row that the new payment clashes with.
recorded-clashes :
    (p : Payment) (db : Db) {q : Payment}
    → find_payment p.channel p.channel_trade_no db ≡ some q
    → (row : PaymentRow) × (find (payment_clashes (payment_row p)) db.payments ≡ some row)
unfolding find_payment payment_clashes payment_row
recorded-clashes p db {q} h =
    elim (Option-cases (find (same_trade p.channel p.channel_trade_no) db.payments)) [
      | inl absent ↦ cc (rw absent at h)
      | inr (row, found) ↦
          find-wider (same_trade p.channel p.channel_trade_no) (payment_clashes (payment_row p))
            db.payments {r = row} (λ s e. or_true (sql_eq s.payment_no p.payment_no) e) found
    ]

repeats :
    (p : Payment) (w : World) (row : PaymentRow)
    → fits_payment (payment_row p) ≡ true
    → find (payment_clashes (payment_row p)) w.working.payments ≡ some row
    → insert_with_dedup p (record w { faults = [] }) ≡ (done duplicate, record w { faults = [] })
unfolding insert_with_dedup insert_payment exec exec_on in_transaction ◌>>=◌ resume pure
repeats p w row fits clash = rw (fits, clash)

answers :
    (req : PaymentCallbackReq) (w : World) (q : Payment)
    → find_payment req.channel req.channel_trade_no w.working ≡ some q
    → str_eq q.order_no req.order_no ≡ true
    → replayed req (record w { faults = [] }) ≡ (done (nothing req), record w { faults = [] })
unfolding replayed get_by_channel_trade_no bound_to exec exec_on in_transaction ◌>>=◌ ◌>>◌ resume
    pure require
answers req w q found same = rw (found, same)

-- When a signed callback of the supported channel names an order with its exact amount, and a payment
-- of its channel trade number is recorded for the same order, the generator gives a number, the row
-- would fit and no statement fails: `handleCallback` answers with success and changes nothing.
pub handle_callback-replays :
    (env : Env) (settings : Settings) (req : PaymentCallbackReq) (raw_body : Bytes) (w : World)
    (order : Order) (amount_fen : ℤ) (time : Bytes) (q : Payment) (n : ℕ) (g : Generator)
    → str_eq req.channel supported_channel ≡ true
    → signed_by_channel settings req ≡ true
    → find_order req.order_no w.committed ≡ some order
    → yuan_string_to_fen req.amount ≡ some amount_fen
    → eq_ℤ amount_fen order.total_amount_fen ≡ true
    → next_number env.rounds env.clock w.generator ≡ generated n g
    → epoch_to_beijing req.timestamp ≡ some time
    → fits_payment (payment_row (payment_at req amount_fen raw_body n time)) ≡ true
    → find_payment req.channel req.channel_trade_no w.committed ≡ some q
    → str_eq q.order_no req.order_no ≡ true
    → let (o, w') = handle_callback env settings req raw_body (record w { faults = [] }) in
      (o ≡ done (nothing req)) × (w'.committed ≡ w.committed)
unfolding handle_callback callback_transaction caught transaction body after_insert exec exec_on
    in_transaction pure begin_transaction guard_exit find_order find_payment ◌>>=◌ ◌>>◌ resume
handle_callback-replays env settings req raw_body w order amount_fen time q n g mock signed found
      parsed equal issued told fits recorded_before same =
    let p = payment_at req amount_fen raw_body n time in
    let u : World = record w { working = w.committed; finished = false } in
    let u1 : World = record u { generator = g } in
    let (row, clash) = recorded-clashes p w.committed {q = q} recorded_before in
    rw mock (
      rw signed (
        rw (checks req u order amount_fen found parsed equal) (
          rw (builds env req amount_fen raw_body u n g time issued told) (
            rw (repeats p u1 row fits clash)
              (rw (answers req u1 q recorded_before same) (refl, refl))))))

-- A search that finds nothing finds nothing by a narrower test.
find-narrower :
    {A : Type 0} (p q : A → Bool) (xs : List A)
    → ((x : A) → p x ≡ true → q x ≡ true)
    → find q xs ≡ none
    → find p xs ≡ none
unfolding find
find-narrower p q [] imp h = refl
find-narrower p q (x ∷ xs) imp h =
    let (miss, rest) = find-none q x xs h in
    elim (Bool-cases (p x)) [
      | inl hit ↦ cc (sym miss ∙ imp x hit)
      | inr other ↦ rw other (find-narrower p q xs imp rest)
    ]

-- The payment that a callback has recorded is found by its trade.
recorded_payment :
    (p : Payment) (rows : List PaymentRow)
    → find (payment_clashes (payment_row p)) rows ≡ none
    → find (same_trade p.channel p.channel_trade_no) (rows ++ payment_row p ∷ [])
      ≡ some (payment_row p)
unfolding payment_clashes payment_row same_trade
recorded_payment p rows h =
    find-append (same_trade p.channel p.channel_trade_no) rows (payment_row p) (
      find-narrower (same_trade p.channel p.channel_trade_no) (payment_clashes (payment_row p)) rows
        (λ s e. or_true (sql_eq s.payment_no p.payment_no) e) h)
    ∙ rw (sql_eq_refl p.channel, sql_eq_refl p.channel_trade_no) refl

same_total :
    (b : Bool) (row : OrderRow) (now : Bytes)
    → (order_of_row
        (if b then record row { status = paid; paid_at = some now } else row)).total_amount_fen
      ≡ row.total_amount
unfolding order_of_row
same_total true row now = refl
same_total false row now = refl

-- The order is found after it has been paid, with the same total.
paid_order :
    (order_no now : Bytes) (rows : List OrderRow) {order : Order}
    → Option.map order_of_row (find (has_order_no order_no) rows) ≡ some order
    → (later : Order) × (Option.map order_of_row
          (find (has_order_no order_no) (pay_rows order_no now rows))
        ≡ some later)
      × (later.total_amount_fen ≡ order.total_amount_fen)
unfolding pay_rows order_of_row
paid_order order_no now rows {order} h = elim (Option-cases (find (has_order_no order_no) rows)) [
  | inl absent ↦ cc (rw absent at h)
  | inr (row, found) ↦
      let pay = λ (r : OrderRow). record r { status = paid; paid_at = some now } in
      let later = if payable order_no row then pay row else row in
      (
        order_of_row later,
        rw
            (find-update_where (has_order_no order_no) (payable order_no) pay rows (λ r. refl)
              {r = row} found)
            refl,
        same_total (payable order_no row) row now
            ∙ ap (λ (o : Order). o.total_amount_fen) (some_inj (rw found at h)),
      )
]

same_amount_eq : {a b : ℤ} → a ≡ b → eq_ℤ a b ≡ true
same_amount_eq {a} {b} e = rw e (ground arith)

-- A callback that has confirmed a payment, sent again: as long as the committed database is the one that
-- the first left, the generator gives a number, the row with it fits and no statement fails, the
-- second call answers with success, and nothing is charged, recorded or sent again.
pub handle_callback-again :
    (env later : Env) (settings : Settings) (req : PaymentCallbackReq) (raw_body : Bytes)
    (w w2 : World) (n : ℕ) (g : Generator)
    → (paid_now : Paid env settings req raw_body w.committed
        (handle_callback env settings req raw_body w))
    → str_eq req.channel supported_channel ≡ true
    → signed_by_channel settings req ≡ true
    → w2.committed ≡ (handle_callback env settings req raw_body w).1.committed
    → next_number later.rounds later.clock w2.generator ≡ generated n g
    → fits_payment (
        payment_row
          (payment_at req paid_now.payment.amount_fen raw_body n paid_now.payment.callback_time))
      ≡ true
    → let (o, w') = handle_callback later settings req raw_body (record w2 { faults = [] }) in
      (o ≡ done (nothing req)) × (w'.committed ≡ w2.committed)
unfolding find_order find_payment paid_db payment_of_row payment_row
handle_callback-again env later settings req raw_body w w2 n g paid_now mock signed same issued
      fits =
    let p = paid_now.payment in
    let ok = paid_now.accepted in
    let (order, found, total) =
      paid_order req.order_no (format_time (pos env.db_now)) w.committed.orders
        {order = paid_now.order} ok.order_found in
    let stored = same ∙ paid_now.stored in
    handle_callback-replays later settings req raw_body w2 order p.amount_fen p.callback_time
      (payment_of_row (payment_row p)) n g mock signed (ap (find_order req.order_no) stored ∙ found)
      ok.amount_parsed (same_amount_eq (ok.amount_equal ∙ sym total)) issued ok.payment_of.beijing
      fits
      (ap (find_payment req.channel req.channel_trade_no) stored
        ∙ rw (sym ok.payment_of.same_channel, sym ok.payment_of.same_trade_no)
            (ap (Option.map payment_of_row)
              (recorded_payment p w.committed.payments ok.first_trade)))
      (rw (ok.payment_of.same_order) (str_eq_refl req.order_no))
