-- ===== src/Ids/Follows.antt =====
-- src/utils/IdGenerator.cc: what one call of `nextId` does to a valid state.
use Prim.Native.Nat.{bit_or}
use mathlib.Core.Path.{subst}
use native.Mathlib.Nat.{le_refl, le_trans}
use trade_reconcile_system.Base.{
  Bool-cases, Option-cases, ap, arith, false, inl, inr, refl, some, some_inj, suc, true, zero, ℕ,
  ◌%◌, ◌*◌, ◌+◌, ◌-◌, ◌<◌, ◌==◌, ◌^◌, ◌∙◌, ◌≡◌, ◌≤◌, ◌⊎◌,
}
use trade_reconcile_system.Base.Bits.{bit_or_disjoint}
use trade_reconcile_system.Base.Int.{eq_ℤ, leb_ℤ, ltb_ℤ, pos, pos_part, ℤ}
use trade_reconcile_system.Ids.{
  Clock, Generated, Generator, after_reading, emit, epoch_ms, generated, layout, moved_backwards,
  next_in_ms, next_number, spinning, wait_next_ms,
}

abbrev pub layout_sum : ℕ → ℕ → ℕ
layout_sum now_ms sequence = (now_ms - epoch_ms) * 2 ^ 22 + 2 ^ 17 + 2 ^ 12 + sequence

-- The time for which the 41 bits of a positive number are enough.
abbrev pub InRange : ℕ → Type 0
InRange now_ms = now_ms < epoch_ms + 2 ^ 41

-- Every reading of the clock is.
abbrev pub ClockInRange : Clock → Type 0
ClockInRange clock = (at : ℕ) → InRange (clock at)

shift_kept : (ms : ℕ) → ms < 2 ^ 41 → ms * 2 ^ 22 % 2 ^ 64 ≡ ms * 2 ^ 22
shift_kept ms h = omega arith

pub layout-sum :
    (now_ms sequence : ℕ)
    → InRange now_ms
    → sequence < 2 ^ 12
    → layout now_ms sequence ≡ layout_sum now_ms sequence
unfolding layout
layout-sum now_ms sequence k h =
    let ms = now_ms - epoch_ms in
    ap (λ m. bit_or (bit_or (bit_or m (2 ^ 17)) (2 ^ 12)) sequence) (shift_kept ms (omega arith))
    ∙ ap (λ m. bit_or (bit_or m (2 ^ 12)) sequence) (bit_or_disjoint 22 ms (2 ^ 17) (omega arith))
    ∙ ap (λ m. bit_or (bit_or m (2 ^ 12)) sequence) (omega arith)
    ∙ ap (λ m. bit_or m sequence) (bit_or_disjoint 17 (ms * 32 + 1) (2 ^ 12) (omega arith))
    ∙ ap (λ m. bit_or m sequence) (omega arith)
    ∙ bit_or_disjoint 12 (ms * 1024 + 32 + 1) sequence h
    ∙ omega arith

-- The state after a number was given out: the last reading is not before 2024, the sequence fits.
pub record IsValid (g : Generator) : Type 0 where
  pub now_ms : ℕ
  pub last : g.last_timestamp_ms ≡ pos now_ms
  pub after_epoch : epoch_ms ≤ now_ms
  pub in_time : InRange now_ms
  pub fits : g.sequence < 2 ^ 12

-- The number that a valid state was left by.
abbrev pub last_number : Generator → ℕ
last_number g = layout_sum (pos_part g.last_timestamp_ms) g.sequence

pub wait_next_ms-lt :
    (rounds : ℕ) (clock : Clock) (last_ms : ℤ) (at : ℕ) {r : ℕ × ℕ}
    → wait_next_ms rounds clock last_ms at ≡ some r
    → ltb_ℤ last_ms (pos r.0) ≡ true
unfolding wait_next_ms
wait_next_ms-lt zero clock last_ms at e = cc
wait_next_ms-lt (suc rounds) clock last_ms at {r} e =
    elim (Bool-cases (leb_ℤ (pos (clock at)) last_ms)) [
      | inl early ↦ wait_next_ms-lt rounds clock last_ms (at + 1) {r = r} (ground arith)
      | inr late ↦ ground arith
    ]

found_now :
    (rounds : ℕ) (clock : Clock) (last_ms : ℤ) (at : ℕ) {r : ℕ × ℕ}
    → leb_ℤ (pos (clock at)) last_ms ≡ false
    → wait_next_ms (suc rounds) clock last_ms at ≡ some r
    → clock at ≡ r.0
unfolding wait_next_ms
found_now rounds clock last_ms at {r} late e =
    let found : some (clock at, at + 1) ≡ some r = ground arith in
    ap (λ (x : ℕ × ℕ). x.0) (some_inj found)

wait_next_ms-InRange :
    (rounds : ℕ) (clock : Clock) (last_ms : ℤ) (at : ℕ) {r : ℕ × ℕ}
    → ClockInRange clock
    → wait_next_ms rounds clock last_ms at ≡ some r
    → InRange r.0
unfolding wait_next_ms
wait_next_ms-InRange zero clock last_ms at c e = cc
wait_next_ms-InRange (suc rounds) clock last_ms at {r} c e =
    elim (Bool-cases (leb_ℤ (pos (clock at)) last_ms)) [
      | inl early ↦ wait_next_ms-InRange rounds clock last_ms (at + 1) {r = r} c (ground arith)
      | inr late ↦ subst InRange (found_now rounds clock last_ms at late e) (c at)
    ]

pub shift : (a k : ℕ) → a + 1 + k ≡ a + suc k
shift a k = omega arith

-- What a call that gave out a number has done.
abbrev pub Follows : Generator → Generated → Type 0
Follows g (generated n g') = IsValid g' × (last_number g < n) × (n ≡ last_number g') × (n < 2 ^ 63)
Follows g (moved_backwards g') =
    (g'.last_timestamp_ms ≡ g.last_timestamp_ms) × (g'.sequence ≡ g.sequence)
Follows g spinning = Unit

-- The comparison with the state: a later millisecond, or the same and a larger sequence.
later_number :
    (t u q r : ℕ)
    → epoch_ms ≤ t
    → t ≤ u
    → q < 2 ^ 12
    → (t < u) ⊎ (q < r)
    → layout_sum t q < layout_sum u r
later_number t u q r h k l (inl m) = omega arith
later_number t u q r h k l (inr m) = omega arith

emit-Follows :
    (g : Generator) (u r at : ℕ) (v : IsValid g)
    → v.now_ms ≤ u
    → InRange u
    → r < 2 ^ 12
    → (v.now_ms < u) ⊎ (g.sequence < r)
    → Follows g (emit u r at)
unfolding emit
emit-Follows g u r at v h b k l = (
  record { now_ms = u; last = refl; after_epoch = le_trans v.after_epoch h; in_time = b; fits = k },
  rw (layout-sum u r b k, v.last) (later_number v.now_ms u g.sequence r v.after_epoch h v.fits l),
  layout-sum u r b k,
  rw (layout-sum u r b k) (omega arith),
)

ltb_ℤ-pos : (t u : ℕ) → ltb_ℤ (pos t) (pos u) ≡ true → t < u
ltb_ℤ-pos t u h = ground arith

later_ms : {z : ℤ} {t u : ℕ} → z ≡ pos t → ltb_ℤ z (pos u) ≡ true → t < u
later_ms {z} {t} {u} e h = ltb_ℤ-pos t u (rw e at h)

next_in_ms-Follows :
    (rounds : ℕ) (clock : Clock) (g : Generator) (at : ℕ) (v : IsValid g)
    → ClockInRange clock
    → Follows g (next_in_ms rounds clock g v.now_ms at)
unfolding next_in_ms
next_in_ms-Follows rounds clock g at v c = elim (Bool-cases ((g.sequence + 1) % 2 ^ 12 == 0)) [
  | inl exhausted ↦
      rw exhausted (elim (Option-cases (wait_next_ms rounds clock g.last_timestamp_ms at)) [
        | inl spin ↦ rw spin tt
        | inr (r, found) ↦
            let late =
              later_ms v.last (wait_next_ms-lt rounds clock g.last_timestamp_ms at {r = r} found) in
            rw found (
              emit-Follows g r.0 ((g.sequence + 1) % 2 ^ 12) r.1 v (omega arith)
                (wait_next_ms-InRange rounds clock g.last_timestamp_ms at {r = r} c found)
                (omega arith) (inl late))
      ])
  | inr room ↦ rw room (
      emit-Follows g v.now_ms ((g.sequence + 1) % 2 ^ 12) at v (le_refl v.now_ms) v.in_time
        (omega arith) (inr (ground arith)))
]

eq_ℤ-pos : (t u : ℕ) → eq_ℤ (pos t) (pos u) ≡ true → t ≡ u
eq_ℤ-pos t u h = ground arith

same_ms : {z : ℤ} {t u : ℕ} → z ≡ pos t → eq_ℤ (pos u) z ≡ true → u ≡ t
same_ms {z} {t} {u} e h = eq_ℤ-pos u t (rw e at h)

above-pos : (t u : ℕ) → ltb_ℤ (pos u) (pos t) ≡ false → eq_ℤ (pos u) (pos t) ≡ false → t < u
above-pos t u h k = ground arith

above_ms : {z : ℤ} {t u : ℕ} → z ≡ pos t → ltb_ℤ (pos u) z ≡ false → eq_ℤ (pos u) z ≡ false → t < u
above_ms {z} {t} {u} e h k = above-pos t u (rw e at h) (rw e at k)

after_reading-Follows :
    (rounds : ℕ) (clock : Clock) (g : Generator) (now at : ℕ)
    → ClockInRange clock
    → InRange now
    → IsValid g
    → Follows g (after_reading rounds clock g now at)
unfolding after_reading
after_reading-Follows rounds clock g now at c b v =
    elim (Bool-cases (ltb_ℤ (pos now) g.last_timestamp_ms)) [
      | inl back ↦ rw back (refl, refl)
      | inr fine ↦ rw fine (elim (Bool-cases (eq_ℤ (pos now) g.last_timestamp_ms)) [
        | inl same ↦ rw (same, same_ms v.last same) (next_in_ms-Follows rounds clock g at v c)
        | inr other ↦
            let above = above_ms v.last fine other in
            rw other (emit-Follows g now 0 at v (omega arith) b (omega arith) (inl above))
      ])
    ]

-- A call from a valid state gives out a number above the last one and leaves a valid state that
-- records it, or it throws and changes nothing but the count of clock readings, or it spins.
pub next_number-Follows :
    (rounds : ℕ) (clock : Clock) (g : Generator)
    → ClockInRange clock
    → IsValid g
    → Follows g (next_number rounds clock g)
unfolding next_number
next_number-Follows rounds clock g c v =
    after_reading-Follows rounds clock g (clock g.readings) (g.readings + 1) c (c g.readings) v
