-- ===== src/ThreadPool/Fifo.antt =====
-- Every accepted task is started once, in the order of submission (src/utils/ThreadPool.cc).
use trade_reconcile_system.Base.{
  Bool, Bool-cases, List, Option, [], ap, append_assoc, arith, false, inl, inr, length,
  length-append, none, refl, some, sym, true, ℕ, ◌++◌, ◌+◌, ◌∙◌, ◌∷◌, ◌≡◌, ◌⊎◌,
}
use trade_reconcile_system.ThreadPool.{
  Pool, Reach, Step, Work, ends, new_pool, next_task, reach_here, reach_next, returns, stop, stops,
  submit, submits, takes, works,
}

-- What holds of a pool that `thread_count` threads serve.
abbrev pub IsConsistent {ℓ} : {A : Type ℓ} → ℕ → Pool A → Type ℓ
IsConsistent thread_count p =
    (p.accepted ≡ p.started ++ p.tasks)
    × (length p.started ≡ p.ended + length p.running)
    × (p.waiting + length p.running + p.returned ≡ thread_count)
    × ((p.returned ≡ 0) ⊎ ((p.stopped ≡ true) × (p.tasks ≡ [])))

true≢false : ¬ (true ≡ false)
true≢false e = cc

module _ {ℓ} {A : Type ℓ} where
  pub cons-no : {x : A} {xs : List A} → ¬ (x ∷ xs ≡ [])
  cons-no e = cc

  still :
      {b : Bool} {xs ys : List A} (n : ℕ)
      → b ≡ false
      → (n ≡ 0) ⊎ ((b ≡ true) × (xs ≡ []))
      → (n ≡ 0) ⊎ ((false ≡ true) × (ys ≡ []))
  still n e (inl z) = inl z
  still n e (inr h) = absurd (true≢false (sym (h.0) ∙ e))

  still_taking :
      {xs ys : List A} {x : A} {n : ℕ} (b : Bool)
      → xs ≡ x ∷ ys
      → (n ≡ 0) ⊎ ((b ≡ true) × (xs ≡ []))
      → (n ≡ 0) ⊎ ((b ≡ true) × (ys ≡ []))
  still_taking b e (inl z) = inl z
  still_taking b e (inr h) = absurd (cons-no (sym e ∙ h.1))

  still_stopped :
      {b : Bool} {xs : List A} (n : ℕ)
      → (n ≡ 0) ⊎ ((b ≡ true) × (xs ≡ []))
      → (n ≡ 0) ⊎ ((true ≡ true) × (xs ≡ []))
  still_stopped n (inl z) = inl z
  still_stopped n (inr h) = inr (refl, h.1)

  pub next_task-some :
      (stopped : Bool) (tasks : List A) {task : A} {rest : List A}
      → next_task stopped tasks ≡ some (some (task, rest))
      → tasks ≡ task ∷ rest
  unfolding next_task
  next_task-some true [] h = cc
  next_task-some false [] h = cc
  next_task-some s (x ∷ xs) h = cc

  pub next_task-none :
      (stopped : Bool) (tasks : List A)
      → next_task stopped tasks ≡ some none
      → (stopped ≡ true) × (tasks ≡ [])
  unfolding next_task
  next_task-none true [] h = (refl, refl)
  next_task-none false [] h = cc
  next_task-none s (x ∷ xs) h = cc

  submit-IsConsistent :
      (n : ℕ) (p : Pool A) (task : Option A) → IsConsistent n p → IsConsistent n (submit task p).1
  unfolding submit
  submit-IsConsistent n p none h = h
  submit-IsConsistent n p (some task) h = elim (Bool-cases p.stopped) [
    | inl closed ↦ rw closed (h.0, h.1, h.2, still_stopped p.returned h.3)
    | inr serving ↦ rw serving (
      rw (h.0) (append_assoc p.started p.tasks (task ∷ [])),
      h.1,
      h.2,
      still p.returned serving h.3,
    )
  ]

  pub Work-IsConsistent : (n : ℕ) {p q : Pool A} → Work p q → IsConsistent n p → IsConsistent n q
  Work-IsConsistent n (takes p m task rest w t) h =
      let front = next_task-some p.stopped p.tasks t in
      (
        h.0 ∙ rw front (sym (append_assoc p.started (task ∷ []) rest)),
        omega (arith, length-append p.started (task ∷ []), h.1),
        omega (arith, w, h.2),
        still_taking p.stopped front h.3,
      )
  Work-IsConsistent n (ends p task others rest how r) h =
      let all = ap length r ∙ length-append others (task ∷ rest) in
      (
        h.0,
        omega (arith, h.1, all, length-append others rest),
        omega (arith, h.2, all, length-append others rest),
        h.3,
      )
  Work-IsConsistent n (returns p m w t) h =
      (h.0, h.1, omega (arith, w, h.2), inr (next_task-none p.stopped p.tasks t))

  Step-IsConsistent : (n : ℕ) {p q : Pool A} → Step p q → IsConsistent n p → IsConsistent n q
  unfolding stop
  Step-IsConsistent n (submits p task) h = submit-IsConsistent n p task h
  Step-IsConsistent n (stops p) h = (h.0, h.1, h.2, still_stopped p.returned h.3)
  Step-IsConsistent n (works w) h = Work-IsConsistent n w h

  new_pool-IsConsistent : (n : ℕ) → IsConsistent n (new_pool {A = A} n)
  unfolding new_pool
  new_pool-IsConsistent n = (refl, refl, omega arith, inl refl)

  -- From the start of a pool on, whatever its clients and threads do: the tasks that `submit` accepted
  -- are those that a thread has taken, in the order of acceptance, followed by those in the queue;
  -- the taken ones have ended or run; each of the pool's threads waits, runs a task or has returned;
  -- and one has returned only when the pool is stopped and its queue empty.
  pub Reach-IsConsistent :
      (thread_count : ℕ) {p : Pool A}
      → Reach (new_pool thread_count) p
      → IsConsistent thread_count p
  Reach-IsConsistent n reach_here = new_pool-IsConsistent n
  Reach-IsConsistent n (reach_next r st) = Step-IsConsistent n st (Reach-IsConsistent n r)
