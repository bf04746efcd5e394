-- ===== src/Ids/Order.antt =====
-- The numbers of `nextId` strictly increase, so their texts are distinct; the spin loop ends when
-- the clock moves on.
use native.Mathlib.Nat.{add-zero, le_refl}
use trade_reconcile_system.Base.{
  All, Bool-cases, List, [], arith, false, inl, inr, map, none, refl, suc, sym, zero, ℕ, ◌*◌, ◌+◌,
  ◌-◌, ◌<◌, ◌^◌, ◌∙◌, ◌∷◌, ◌≡◌, ◌≢◌, ◌≤◌,
}
use trade_reconcile_system.Base.Bytes.{Bytes}
use trade_reconcile_system.Base.Decimal.{to_string, to_string-injective}
use trade_reconcile_system.Base.Int.{leb_ℤ, pos, ℤ}
use trade_reconcile_system.Ids.{
  Clock, Generated, Generator, after_reading, emit, epoch_ms, fresh_generator, generated, id_text,
  issue, layout, moved_backwards, next_number, spinning, wait_next_ms,
}
use trade_reconcile_system.Ids.Follows.{
  ClockInRange, Follows, IsValid, last_number, layout-sum, next_number-Follows, shift,
}

-- When some reading among the next `rounds` exceeds the last time, the spin loop ends.
pub wait_next_ms-total :
    (rounds k : ℕ) (clock : Clock) (last_ms : ℤ) (at : ℕ)
    → k < rounds
    → leb_ℤ (pos (clock (at + k))) last_ms ≡ false
    → wait_next_ms rounds clock last_ms at ≢ none
unfolding wait_next_ms
wait_next_ms-total zero k clock last_ms at h late e = absurd (omega arith)
wait_next_ms-total (suc rounds) zero clock last_ms at h late e =
    let late' : leb_ℤ (pos (clock at)) last_ms ≡ false = rw (add-zero at) at late in ground arith
wait_next_ms-total (suc rounds) (suc k) clock last_ms at h late e =
    elim (Bool-cases (leb_ℤ (pos (clock at)) last_ms)) [
      | inl early ↦
          wait_next_ms-total rounds k clock last_ms (at + 1) (omega arith) (rw (shift at k) late)
            (ground arith)
      | inr within ↦ ground arith
    ]

-- Above `b`, each above the one before it, and each a positive std::int64_t.
abbrev pub IncreasingFrom : ℕ → List ℕ → Type 0
IncreasingFrom b [] = Unit
IncreasingFrom b (n ∷ ns) = (b < n) × (n < 2 ^ 63) × IncreasingFrom n ns

issue-IncreasingFrom :
    (calls rounds : ℕ) (clock : Clock) (g : Generator)
    → ClockInRange clock
    → IsValid g
    → IncreasingFrom (last_number g) (issue calls rounds clock g)
unfolding issue
issue-IncreasingFrom zero rounds clock g c v = tt
issue-IncreasingFrom (suc calls) rounds clock g c v =
    step (next_number rounds clock g) (next_number-Follows rounds clock g c v)
      (λ g' v'. issue-IncreasingFrom calls rounds clock g' c v')
  where
    step :
        (r : Generated)
        → Follows g r
        → ((g' : Generator)
            → IsValid g'
            → IncreasingFrom (last_number g') (issue calls rounds clock g'))
        → IncreasingFrom (last_number g) (elim r [
          | generated n g' ↦ n ∷ issue calls rounds clock g'
          | moved_backwards g' ↦ issue calls rounds clock g'
          | spinning ↦ []
        ])
    step (generated n g') (valid, above, counted, small) ih =
        (above, small, rw counted (ih g' valid))
    step (moved_backwards g') (same_ms, same_sequence) ih =
        rw (← same_ms, ← same_sequence)
          (ih g' (record {
            now_ms = v.now_ms;
            last = same_ms ∙ v.last;
            after_epoch = v.after_epoch;
            in_time = v.in_time;
            fits = rw same_sequence v.fits;
          }))
    step spinning f ih = tt

pub fresh-Follows :
    (rounds : ℕ) (clock : Clock)
    → epoch_ms ≤ clock 0
    → next_number rounds clock fresh_generator
      ≡ generated
          (layout (clock 0) 0)
          (record { last_timestamp_ms = pos (clock 0); sequence = 0; readings = 1 })
unfolding next_number after_reading emit
fresh-Follows rounds clock h = ground arith

-- The numbers that a fresh process gives out increase strictly and are positive values of std::int64_t,
-- over any row of calls that throw, spin or succeed, when its first clock reading is not before 2024
-- and every reading is less than 2^41 milliseconds after the start of 2024.
pub issue-fresh-IncreasingFrom :
    (calls rounds : ℕ) (clock : Clock)
    → epoch_ms ≤ clock 0
    → ClockInRange clock
    → IncreasingFrom 0 (issue calls rounds clock fresh_generator)
unfolding issue
issue-fresh-IncreasingFrom zero rounds clock h c = tt
issue-fresh-IncreasingFrom (suc calls) rounds clock h c =
    let first_ms = c 0 in
    rw (fresh-Follows rounds clock h, issue, layout-sum (clock 0) 0 first_ms (omega arith))
      (
        omega arith,
        omega arith,
        issue-IncreasingFrom calls rounds clock _ c (record {
          now_ms = clock 0;
          last = refl;
          after_epoch = h;
          in_time = first_ms;
          fits = omega arith;
        }),
      )

IncreasingFrom-le :
    (b c : ℕ) (ns : List ℕ) → b ≤ c → IncreasingFrom c ns → All (λ n. (b < n) × (n < 2 ^ 63)) ns
IncreasingFrom-le b c [] h i = tt
IncreasingFrom-le b c (n ∷ ns) h (l, u, i) =
    ((omega arith, u), IncreasingFrom-le b n ns (omega arith) i)

abbrev pub Distinct : List Bytes → Type 0
Distinct [] = Unit
Distinct (t ∷ ts) = All (λ u. t ≢ u) ts × Distinct ts

small_text : (n : ℕ) → n < 2 ^ 63 → id_text n ≡ to_string n
unfolding id_text
small_text n h = ground arith

texts_ne :
    (n : ℕ) (ns : List ℕ)
    → n < 2 ^ 63
    → All (λ m. (n < m) × (m < 2 ^ 63)) ns
    → All (λ u. id_text n ≢ u) (map id_text ns)
texts_ne n [] b h = tt
texts_ne n (m ∷ ns) b ((l, u), h) = (
  (λ e.
      absurd (omega (arith, to_string-injective n m (sym (small_text n b) ∙ e ∙ small_text m u)))),
  texts_ne n ns b h,
)

IncreasingFrom-Distinct : (b : ℕ) (ns : List ℕ) → IncreasingFrom b ns → Distinct (map id_text ns)
IncreasingFrom-Distinct b [] i = tt
IncreasingFrom-Distinct b (n ∷ ns) (l, u, i) =
    (texts_ne n ns u (IncreasingFrom-le n n ns (le_refl n) i), IncreasingFrom-Distinct n ns i)

-- No text that `nextId` returns in a process is returned again in it, when the process's first
-- clock reading is not before 2024 and every reading is less than 2^41 milliseconds after the start of
-- 2024.
pub issue-Distinct :
    (calls rounds : ℕ) (clock : Clock)
    → epoch_ms ≤ clock 0
    → ClockInRange clock
    → Distinct (map id_text (issue calls rounds clock fresh_generator))
issue-Distinct calls rounds clock h c =
    IncreasingFrom-Distinct 0 _ (issue-fresh-IncreasingFrom calls rounds clock h c)

-- For a time less than 2^41 milliseconds after the start of 2024 and a sequence of 12 bits, the 64-bit
-- number is the sum of its fields at their places, and is positive as a std::int64_t.
pub layout_bounds :
    (now_ms sequence : ℕ)
    → now_ms < epoch_ms + 2 ^ 41
    → sequence < 2 ^ 12
    → (layout now_ms sequence ≡ (now_ms - epoch_ms) * 2 ^ 22 + 2 ^ 17 + 2 ^ 12 + sequence)
      × (0 < layout now_ms sequence)
      × (layout now_ms sequence < 2 ^ 63)
layout_bounds now_ms sequence k h =
    let sum = layout-sum now_ms sequence k h in (sum, rw sum (omega arith), rw sum (omega arith))
