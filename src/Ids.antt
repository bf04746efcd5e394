-- ===== src/Ids.antt =====
-- src/utils/IdGenerator.cc: the snowflake generator. The process's clock is a function from the
-- number of readings so far to milliseconds since 1970; a call takes the next readings.
pub mod Follows
pub mod Order
mod Tests
use Prim.Native.Nat.{bit_or}
use trade_reconcile_system.Base.{
  List, Option, [], false, if◌then◌else◌, ltb, none, some, suc, true, zero, ℕ, ◌%◌, ◌*◌, ◌+◌, ◌-◌,
  ◌==◌, ◌^◌, ◌∷◌,
}
use trade_reconcile_system.Base.Bytes.{Bytes}
use trade_reconcile_system.Base.Decimal.{to_string}
use trade_reconcile_system.Base.Int.{eq_ℤ, leb_ℤ, ltb_ℤ, negsuc, pos, ℤ}

abbrev pub epoch_ms : ℕ
epoch_ms = 1704067200000

abbrev pub datacenter_id_bits : ℕ
datacenter_id_bits = 5

abbrev pub worker_id_bits : ℕ
worker_id_bits = 5

abbrev pub sequence_bits : ℕ
sequence_bits = 12

-- (1 << kSequenceBits) - 1, as a mask: x & max_sequence is x % 2^12.
abbrev pub max_sequence : ℕ
max_sequence = 2 ^ sequence_bits - 1

abbrev pub timestamp_shift : ℕ
timestamp_shift = datacenter_id_bits + worker_id_bits + sequence_bits

abbrev pub datacenter_shift : ℕ
datacenter_shift = worker_id_bits + sequence_bits

abbrev pub worker_shift : ℕ
worker_shift = sequence_bits

abbrev pub datacenter_id : ℕ
datacenter_id = 1

abbrev pub worker_id : ℕ
worker_id = 1

abbrev pub Clock : Type 0
Clock = ℕ → ℕ

-- gLastTimestampMs and gSequence, and the number of clock readings so far.
pub record Generator : Type 0 where
  pub last_timestamp_ms : ℤ
  pub sequence : ℕ
  pub readings : ℕ

abbrev pub fresh_generator : Generator
fresh_generator = record { last_timestamp_ms = negsuc 0; sequence = 0; readings = 0 }

-- `moved_backwards` is the std::runtime_error; `spinning` means that `waitNextMs` was still in
-- its loop after the rounds that the model gives it.
pub data Generated : Type 0 where
  generated : ℕ → Generator → Generated
  moved_backwards : Generator → Generated
  spinning : Generated

-- `waitNextMs`: the time and the number of readings when a reading exceeds `last_ms`.
unfoldable pub wait_next_ms : ℕ → Clock → ℤ → ℕ → Option (ℕ × ℕ)
wait_next_ms zero clock last_ms at = none
wait_next_ms (suc rounds) clock last_ms at = elim (leb_ℤ (pos (clock at)) last_ms) [
  | true ↦ wait_next_ms rounds clock last_ms (at + 1)
  | false ↦ some (clock at, at + 1)
]

-- The 64 bits of the std::int64_t: the time since the epoch, of which the shift keeps the low bits (the
-- source's shift is undefined past them), the two identifiers, the sequence.
unfoldable pub layout : ℕ → ℕ → ℕ
layout now_ms sequence =
    bit_or
      (bit_or
        (bit_or ((now_ms - epoch_ms) * 2 ^ timestamp_shift % 2 ^ 64)
          (datacenter_id * 2 ^ datacenter_shift))
        (worker_id * 2 ^ worker_shift))
      sequence

emit : ℕ → ℕ → ℕ → Generated
emit now_ms sequence at =
    generated (layout now_ms sequence)
      (record { last_timestamp_ms = pos now_ms; sequence = sequence; readings = at })

-- The branch of `nextId` for a second call in one millisecond.
next_in_ms : ℕ → Clock → Generator → ℕ → ℕ → Generated
unfolding emit
next_in_ms rounds clock g now_ms at =
    let sequence = (g.sequence + 1) % 2 ^ sequence_bits in
    if sequence == 0
    then elim (wait_next_ms rounds clock g.last_timestamp_ms at) [
      | none ↦ spinning
      | some (next_ms, at') ↦ emit next_ms sequence at'
    ]
    else emit now_ms sequence at

-- The first statement of `nextId` has read `now_ms`, and `at` readings are made.
after_reading : ℕ → Clock → Generator → ℕ → ℕ → Generated
unfolding emit next_in_ms
after_reading rounds clock g now_ms at =
    if ltb_ℤ (pos now_ms) g.last_timestamp_ms
    then moved_backwards (record g { readings = at })
    else if eq_ℤ (pos now_ms) g.last_timestamp_ms
    then next_in_ms rounds clock g now_ms at
    else emit now_ms 0 at

-- `IdGenerator::nextId` before std::to_string, under its lock.
unfoldable pub next_number : ℕ → Clock → Generator → Generated
unfolding after_reading
next_number rounds clock g = after_reading rounds clock g (clock g.readings) (g.readings + 1)

-- The text that the callers get: std::to_string of the std::int64_t with these 64 bits.
unfoldable pub id_text : ℕ → Bytes
id_text n = if ltb n (2 ^ 63) then to_string n else b'-' ∷ to_string (2 ^ 64 - n)

-- The numbers that a row of calls gives out, in the order in which they hold the mutex.
unfoldable pub issue : ℕ → ℕ → Clock → Generator → List ℕ
issue zero rounds clock g = []
issue (suc calls) rounds clock g = elim (next_number rounds clock g) [
  | generated n g' ↦ n ∷ issue calls rounds clock g'
  | moved_backwards g' ↦ issue calls rounds clock g'
  | spinning ↦ []
]
