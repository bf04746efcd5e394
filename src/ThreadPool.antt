-- ===== src/ThreadPool.antt =====
-- The pool of worker threads: src/utils/ThreadPool.h and src/utils/ThreadPool.cc.
-- A task is a value of any type. The threads differ in nothing but what they are doing, so the model
-- counts those that wait and those that have returned, and lists the tasks that the others run.
-- The last three fields are a history that no operation reads.
pub mod Fifo
pub mod Drains
mod Tests
use trade_reconcile_system.Base.{
  Bool, List, Option, String, [], false, if◌then◌else◌, none, some, suc, true, ℕ, ◌++◌, ◌∷◌, ◌≡◌,
}

pub record Pool {ℓ} (A : Type ℓ) : Type ℓ where
  -- tasks_ and stopped_
  pub tasks : List A
  pub stopped : Bool
  -- threads_
  pub waiting : ℕ
  pub running : List A
  pub returned : ℕ
  -- what submit accepted, what a thread took, and how many tasks have ended
  pub accepted : List A
  pub started : List A
  pub ended : ℕ

-- How a task ends, and what the loop logs of it.
pub data TaskEnd : Type 0 where
  normally : TaskEnd
  with_exception : String → TaskEnd
  with_other : TaskEnd

unfoldable pub log_of : TaskEnd → Option (String × Option String)
log_of normally = none
log_of (with_exception what) = some ("thread pool task threw: {}", some what)
log_of with_other = some ("thread pool task threw non-std exception", none)

module _ {ℓ} {A : Type ℓ} where
  unfoldable pub new_pool : ℕ → Pool A
  new_pool thread_count = record {
    tasks = [];
    stopped = false;
    waiting = thread_count;
    running = [];
    returned = 0;
    accepted = [];
    started = [];
    ended = 0;
  }

  -- `none` is an empty std::function.
  unfoldable pub submit : Option A → Pool A → Bool × Pool A
  submit none p = (false, p)
  submit (some task) p =
      if p.stopped
      then (false, p)
      else (true, record p { tasks = p.tasks ++ task ∷ []; accepted = p.accepted ++ task ∷ [] })

  -- The destructor before its joins.
  unfoldable pub stop : Pool A → Pool A
  stop p = record p { stopped = true }

  -- What the loop of a thread that holds the lock does next: `none` when its wait goes on, `some none`
  -- when it returns, and `some (some _)` with the task that it takes and those it leaves.
  unfoldable pub next_task : Bool → List A → Option (Option (A × List A))
  next_task stopped [] = if stopped then some none else none
  next_task stopped (task ∷ rest) = some (some (task, rest))

-- The steps of the threads: what the loop does with the lock held, and a task that ends.
pub data Work {ℓ} {A : Type ℓ} : Pool A → Pool A → Type ℓ where
  takes :
      (p : Pool A) (n : ℕ) (task : A) (rest : List A)
      → p.waiting ≡ suc n
      → next_task p.stopped p.tasks ≡ some (some (task, rest))
      → Work p (record p {
        tasks = rest;
        waiting = n;
        running = task ∷ p.running;
        started = p.started ++ task ∷ [];
      })
  -- A task that throws is caught in the loop, so that its thread waits again however it ends.
  ends :
      (p : Pool A) (task : A) (others rest : List A) (how : TaskEnd)
      → p.running ≡ others ++ task ∷ rest
      → Work p (record p { waiting = suc p.waiting; running = others ++ rest; ended = suc p.ended })
  returns :
      (p : Pool A) (n : ℕ)
      → p.waiting ≡ suc n
      → next_task p.stopped p.tasks ≡ some none
      → Work p (record p { waiting = n; returned = suc p.returned })

-- The steps of a pool that clients and its threads use at once.
pub data Step {ℓ} {A : Type ℓ} : Pool A → Pool A → Type ℓ where
  submits : (p : Pool A) (task : Option A) → Step p (submit task p).1
  stops : (p : Pool A) → Step p (stop p)
  works : {p q : Pool A} → Work p q → Step p q

pub data Reach {ℓ} {A : Type ℓ} (p : Pool A) : Pool A → Type ℓ where
  reach_here : Reach p p
  reach_next : {q r : Pool A} → Reach p q → Step q r → Reach p r
