-- ===== src/Ids/Tests.antt =====
-- Runs of src/utils/IdGenerator.cc, and witnesses.
-- A clock that stands still for three readings, steps back once, and then moves on.
use trade_reconcile_system.Base.{
  Bool-cases, [], arith, if◌then◌else◌, inl, inr, ltb, map, none, refl, ◌*◌, ◌+◌, ◌-◌, ◌<◌, ◌==◌,
  ◌^◌, ◌∷◌, ◌≡◌, ◌≢◌,
}
use trade_reconcile_system.Base.Int.{pos}
use trade_reconcile_system.Ids.{
  Clock, Generator, epoch_ms, fresh_generator, generated, id_text, issue, layout, next_number,
  wait_next_ms,
}
use trade_reconcile_system.Ids.Follows.{ClockInRange, IsValid}
use trade_reconcile_system.Ids.Order.{
  Distinct, IncreasingFrom, issue-Distinct, issue-fresh-IncreasingFrom, layout_bounds,
  wait_next_ms-total,
}

abbrev clock : Clock
clock n =
    if ltb n 3
    then 1704067200007
    else if n == 3
    then 1704067200001
    else if ltb n 100
    then 1704067200000 + 5 * n
    else 1704067200500

runs : issue 5 10 clock fresh_generator ≡ 29495296 ∷ 29495297 ∷ 29495298 ∷ 84021248 ∷ []
unfolding issue next_number layout
runs = refl

exhausted : Generator
exhausted = record { last_timestamp_ms = pos 1704067200007; sequence = 4095; readings = 0 }

-- The 4097th call in a millisecond waits for the next.
waits :
    next_number 10 clock exhausted
    ≡ generated 84021248
        (record { last_timestamp_ms = pos 1704067200020; sequence = 0; readings = 5 })
unfolding next_number layout exhausted wait_next_ms
waits = refl

exhausted-IsValid : IsValid exhausted
unfolding exhausted
exhausted-IsValid = record {
  now_ms = 1704067200007;
  last = refl;
  after_epoch = omega arith;
  in_time = omega arith;
  fits = omega arith;
}

clock-InRange : ClockInRange clock
clock-InRange at = elim (Bool-cases (ltb at 3)) [
  | inl still ↦ rw still (omega arith)
  | inr on ↦ rw on (elim (Bool-cases (at == 3)) [
    | inl back ↦ rw back (omega arith)
    | inr fine ↦ rw fine (elim (Bool-cases (ltb at 100)) [
      | inl early ↦ rw early (ground arith)
      | inr late ↦ rw late (omega arith)
    ])
  ])
]

issue-Distinct_example : Distinct (map id_text (issue 5 10 clock fresh_generator))
issue-Distinct_example = issue-Distinct 5 10 clock (omega arith) clock-InRange

issue-fresh-IncreasingFrom_example : IncreasingFrom 0 (issue 5 10 clock fresh_generator)
issue-fresh-IncreasingFrom_example =
    issue-fresh-IncreasingFrom 5 10 clock (omega arith) clock-InRange

wait_next_ms-total_example : wait_next_ms 10 clock (pos 1704067200007) 1 ≢ none
wait_next_ms-total_example = wait_next_ms-total 10 3 clock (pos 1704067200007) 1 (omega arith) refl

layout_bounds_example :
    (layout 1704067200007 4095 ≡ (1704067200007 - epoch_ms) * 2 ^ 22 + 2 ^ 17 + 2 ^ 12 + 4095)
    × (0 < layout 1704067200007 4095)
    × (layout 1704067200007 4095 < 2 ^ 63)
layout_bounds_example = layout_bounds 1704067200007 4095 (omega arith) (omega arith)
