-- ===== src/ThreadPool/Drains.antt =====
-- A pool that is stopped runs what it has accepted, and its threads return (the destructor of
-- src/utils/ThreadPool.cc and the loop that its joins wait for).
use trade_reconcile_system.Base.{
  List, [], ap, append-nil, arith, inl, inr, length, length-append, refl, suc, true, zero, ℕ, ◌*◌,
  ◌+◌, ◌<◌, ◌∙◌, ◌∷◌, ◌≡◌,
}
use trade_reconcile_system.ThreadPool.{
  Pool, Reach, Work, ends, new_pool, next_task, normally, returns, takes,
}
use trade_reconcile_system.ThreadPool.Fifo.{
  IsConsistent, Reach-IsConsistent, Work-IsConsistent, next_task-some,
}

-- A number of steps of the threads.
pub data Run {ℓ} {A : Type ℓ} : ℕ → Pool A → Pool A → Type ℓ where
  no_work : {p : Pool A} → Run 0 p p
  work_first : {k : ℕ} {p q r : Pool A} → Work p q → Run k q r → Run (suc k) p r

-- The work that is left: two steps for each queued task, one for each that runs, and the return of
-- each thread.
abbrev pub load {ℓ} : {A : Type ℓ} → Pool A → ℕ
load p = 2 * length p.tasks + length p.running + (p.waiting + length p.running)

-- All joins have returned, and every accepted task has been started and has ended.
abbrev pub IsJoined {ℓ} : {A : Type ℓ} → ℕ → Pool A → Type ℓ
IsJoined thread_count p =
    (p.returned ≡ thread_count)
    × (p.tasks ≡ [])
    × (p.accepted ≡ p.started)
    × (p.ended ≡ length p.accepted)

module _ {ℓ} {A : Type ℓ} where
  Work-load : {p q : Pool A} → Work p q → load p ≡ suc (load q)
  Work-load (takes p m task rest w t) =
      omega (arith, w, ap length (next_task-some p.stopped p.tasks t))
  Work-load (ends p task others rest how r) =
      omega (arith, ap length r, length-append others (task ∷ rest), length-append others rest)
  Work-load (returns p m w t) = omega (arith, w)

  Work-keeps : {p q : Pool A} → Work p q → (q.stopped ≡ p.stopped) × (q.accepted ≡ p.accepted)
  Work-keeps (takes p m task rest w t) = (refl, refl)
  Work-keeps (ends p task others rest how r) = (refl, refl)
  Work-keeps (returns p m w t) = (refl, refl)

  -- In the time before their end the threads of a pool take as many steps as there is work, and no
  -- more: a run is never longer than the load of the pool that it starts from.
  pub Run-load : {k : ℕ} {p q : Pool A} → Run k p q → load p ≡ k + load q
  Run-load no_work = omega arith
  Run-load (work_first w r) = omega (arith, Work-load w, Run-load r)

  length-zero : (xs : List A) → length xs ≡ 0 → xs ≡ []
  length-zero [] e = refl
  length-zero (x ∷ xs) e = absurd (omega (arith, e))

  -- A thread that waits is woken in a stopped pool: by a task, or to return.
  woken :
      (p : Pool A) (n : ℕ) (tasks : List A)
      → p.stopped ≡ true
      → p.waiting ≡ suc n
      → p.tasks ≡ tasks
      → (q : Pool A) × Work p q
  unfolding next_task
  woken p n [] s w e = (_, returns p n w (rw (s, e) refl))
  woken p n (task ∷ rest) s w e = (_, takes p n task rest w (rw e refl))

  waits_or_runs :
      (p : Pool A) (waiting : ℕ) (running : List A)
      → p.waiting ≡ waiting
      → p.running ≡ running
      → p.stopped ≡ true
      → 0 < waiting + length running
      → (q : Pool A) × Work p q
  waits_or_runs p n (task ∷ rest) w r s live = (_, ends p task [] rest normally r)
  waits_or_runs p (suc n) [] w r s live = woken p n p.tasks s w refl
  waits_or_runs p zero [] w r s live = absurd (omega (arith, live))

  -- While there is work in a stopped pool, one of its threads has not returned.
  live_thread :
      (n : ℕ) (p : Pool A) → IsConsistent (suc n) p → 0 < load p → 0 < p.waiting + length p.running
  live_thread n p (a, s, t, inl none_returned) l = omega (arith, t, none_returned)
  live_thread n p (a, s, t, inr (stopped, empty)) l = omega (arith, t, ap length empty, l)

  joined : (n : ℕ) (p : Pool A) → IsConsistent (suc n) p → load p ≡ 0 → IsJoined (suc n) p
  joined n p (a, s, t, r) e =
      let no_task = length-zero p.tasks (omega (arith, e)) in
      let all : p.accepted ≡ p.started = a ∙ rw no_task (append-nil p.started) in
      (omega (arith, t, e), no_task, all, omega (arith, s, e, ap length all))

  drains :
      (n k : ℕ) (p : Pool A)
      → load p ≡ k
      → p.stopped ≡ true
      → IsConsistent (suc n) p
      → (q : Pool A) × (Run k p q × ((q.accepted ≡ p.accepted) × IsJoined (suc n) q))
  drains n zero p l s c = (p, (no_work, (refl, joined n p c l)))
  drains n (suc k) p l s c =
      let live = live_thread n p c (omega (arith, l)) in
      let (r, w) = waits_or_runs p p.waiting p.running refl refl s live in
      let keeps = Work-keeps w in
      let (q, (longer, (same, last))) =
        drains n k r (omega (arith, l, Work-load w)) (keeps.0 ∙ s)
          (Work-IsConsistent (suc n) w c) in
      (q, (work_first w longer, (same ∙ keeps.1, last)))

  -- From every reachable state of a pool with a thread that is stopped, as many steps of its threads as it has work left lead
  -- to the end of its destructor: every thread has returned, the queue is empty, and every task that
  -- `submit` had accepted has been started and has ended.
  pub stop-drains :
      (n : ℕ) {p : Pool A}
      → Reach (new_pool (suc n)) p
      → p.stopped ≡ true
      → (q : Pool A) × (Run (load p) p q × ((q.accepted ≡ p.accepted) × IsJoined (suc n) q))
  stop-drains n {p} r s = drains n (load p) p refl s (Reach-IsConsistent (suc n) r)
