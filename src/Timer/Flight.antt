-- ===== src/Timer/Flight.antt =====
-- At most one task of a timer is in flight; and when the flag stays set without one, no task starts
-- again.
use trade_reconcile_system.Base.{
  Bool, Bool-cases, ap, arith, false, if◌then◌else◌, inl, inr, refl, suc, true, ℕ, ◌-◌, ◌<◌, ◌∙◌,
  ◌≡◌, ◌≢◌, ◌⊎◌,
}
use trade_reconcile_system.Db.Monad.{Exception, M, Outcome, World, done, hang, thrown}
use trade_reconcile_system.Timer.{
  Timer, TimerReach, TimerStep, instance_in, land, lands, rest_of_process, run_once, ticks,
  timer_begins, timer_goes_on,
}

-- A task in flight is the only one, and the flag is set for it.
abbrev pub IsSingle : Timer → Type 0
IsSingle t = (t.in_flight ≡ 0) ⊎ ((t.in_flight ≡ 1) × (t.running ≡ true))

-- The flag is set and no task will clear it.
abbrev pub IsStuck : Timer → Type 0
IsStuck t = (t.running ≡ true) × (t.in_flight ≡ 0)

one_left : {n : ℕ} {b : Bool} → 0 < n → (n ≡ 0) ⊎ ((n ≡ 1) × (b ≡ true)) → n - 1 ≡ 0
one_left l (inl z) = absurd (omega (arith, l, z))
one_left l (inr one) = omega (arith, one.0)

not_running : {n : ℕ} {b : Bool} → b ≡ false → (n ≡ 0) ⊎ ((n ≡ 1) × (b ≡ true)) → n ≡ 0
not_running e (inl z) = z
not_running e (inr (one, r)) = cc

submitted :
    (accepted : Bool) {n : ℕ}
    → n ≡ 0
    → ((if accepted then suc n else n) ≡ 0)
      ⊎ (((if accepted then suc n else n) ≡ 1) × (true ≡ true))
submitted true z = inr (ap suc z, refl)
submitted false z = inl z

run_once-IsSingle : (accepted : Bool) (t : Timer) → IsSingle t → IsSingle (run_once accepted t)
unfolding run_once
run_once-IsSingle accepted t h = elim (Bool-cases t.running) [
  | inl set ↦ rw set (elim h [ inl z ↦ inl z | inr one ↦ inr (one.0, refl) ])
  | inr clear ↦ rw clear (submitted accepted (not_running clear h))
]

land-landed :
    (r : Outcome (Unit {0}) × World) (t : Timer)
    → r.0 ≢ hang
    → (land r t).in_flight ≡ t.in_flight - 1
unfolding land
land-landed (done u, w) t h = refl
land-landed (thrown e, w) t h = refl
land-landed (hang, w) t h = absurd (h refl)

module _ {B : Type 0} (work : B → M (Unit {0})) where
  TimerStep-IsSingle : {t u : Timer} → TimerStep work t u → IsSingle t → IsSingle u
  TimerStep-IsSingle (ticks t accepted) h = run_once-IsSingle accepted t h
  TimerStep-IsSingle (lands t course l e) h =
      inl (land-landed (work course t.world) t e ∙ one_left l h)
  TimerStep-IsSingle (rest_of_process t w) h = h

  -- Whatever the work of a timed task does, and however its ticks, the ends of its tasks and the
  -- rest of the process follow each other: at most one of its tasks is in flight, and while one is,
  -- the flag is set.
  pub TimerReach-IsSingle : (w : World) {t : Timer} → TimerReach work (instance_in w) t → IsSingle t
  unfolding instance_in
  TimerReach-IsSingle w timer_begins = inl refl
  TimerReach-IsSingle w (timer_goes_on r st) = TimerStep-IsSingle st (TimerReach-IsSingle w r)

  TimerStep-IsStuck : {t u : Timer} → TimerStep work t u → IsStuck t → IsStuck u
  unfolding run_once
  TimerStep-IsStuck (ticks t accepted) h = rw (h.0) (refl, h.1)
  TimerStep-IsStuck (lands t course l e) h = absurd (omega (arith, l, h.1))
  TimerStep-IsStuck (rest_of_process t w) h = h

  pub TimerReach-IsStuck : {t u : Timer} → IsStuck t → TimerReach work t u → IsStuck u
  TimerReach-IsStuck h timer_begins = h
  TimerReach-IsStuck h (timer_goes_on r st) = TimerStep-IsStuck st (TimerReach-IsStuck h r)

  single_flight :
      (t : Timer) → 0 < t.in_flight → IsSingle t → (t.in_flight ≡ 1) × (t.running ≡ true)
  single_flight t l (inl z) = absurd (omega (arith, l, z))
  single_flight t l (inr one) = one

  -- A task that throws leaves the flag set, and no task to clear it.
  land-thrown :
      (w v : World) {t : Timer} (e : Exception)
      → TimerReach work (instance_in w) t
      → 0 < t.in_flight
      → IsStuck (land (thrown e, v) t)
  unfolding land
  land-thrown w v {t} e r l =
      let (one, set) = single_flight t l (TimerReach-IsSingle w r) in (set, omega (arith, one))

  pub thrown_for_ever :
      (w : World) {t u : Timer} (e : Exception) (v : World) (r : Outcome (Unit {0}) × World)
      → TimerReach work (instance_in w) t
      → 0 < t.in_flight
      → r ≡ (thrown e, v)
      → TimerReach work (land r t) u
      → IsStuck u
  thrown_for_ever w {t} e v r reached l throws later =
      TimerReach-IsStuck (rw throws (land-thrown w v e reached l)) later
