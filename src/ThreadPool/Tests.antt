-- ===== src/ThreadPool/Tests.antt =====
-- A pool of two threads that is stopped with a task in its queue, and witnesses.
use trade_reconcile_system.Base.{[], false, none, refl, some, true, ℕ, ◌∷◌, ◌≡◌}
use trade_reconcile_system.ThreadPool.{
  Pool, Reach, log_of, new_pool, next_task, reach_here, reach_next, stop, stops, submit, submits,
  takes, with_exception, works,
}
use trade_reconcile_system.ThreadPool.Drains.{IsJoined, Run, load, stop-drains}
use trade_reconcile_system.ThreadPool.Fifo.{IsConsistent, Reach-IsConsistent}

abbrev empty_pool : Pool ℕ
empty_pool = new_pool 2

abbrev one_queued : Pool ℕ
one_queued = (submit (some 7) empty_pool).1

abbrev one_running : Pool ℕ
one_running = record one_queued { tasks = []; waiting = 1; running = 7 ∷ []; started = 7 ∷ [] }

abbrev two_tasks : Pool ℕ
two_tasks = (submit (some 8) one_running).1

abbrev stopped_pool : Pool ℕ
stopped_pool = stop two_tasks

abbrev pool_history : Reach empty_pool stopped_pool
unfolding new_pool submit next_task
pool_history =
    reach_next
      (reach_next
        (reach_next (reach_next reach_here (submits empty_pool (some 7)))
          (works (takes one_queued 1 7 [] refl refl)))
        (submits one_running (some 8)))
      (stops two_tasks)

stopped_pool_stopped : stopped_pool.stopped ≡ true
unfolding stop
stopped_pool_stopped = refl

refused_after_stop : (submit (some 9) stopped_pool).0 ≡ false
unfolding submit stop
refused_after_stop = refl

empty_refused : (submit none empty_pool).0 ≡ false
unfolding submit
empty_refused = refl

log_of_exception : log_of (with_exception "db") ≡ some ("thread pool task threw: {}", some "db")
unfolding log_of
log_of_exception = refl

Reach-IsConsistent_example : IsConsistent 2 stopped_pool
Reach-IsConsistent_example = Reach-IsConsistent 2 pool_history

stop-drains_example :
    (q : Pool ℕ) × (Run (load stopped_pool) stopped_pool q
      × ((q.accepted ≡ stopped_pool.accepted) × IsJoined 2 q))
stop-drains_example = stop-drains 1 pool_history stopped_pool_stopped
