-- ===== src/Net/EventLoopThreadPool/Starts.antt =====
-- `Start` and `Task` of framework/net/src/EventLoopThreadPool.cpp on the thread pool that runs them. Every
-- task is `Task`; a worker that took one stays in its loop.
pub mod Once
use thread_library.Prelude.{
  ℕ, zero, suc, ◌+◌, ◌≤◌, ◌≡◌, refl, sym, ap, ◌∙◌, true, false, List, [], ◌∷◌, ◌++◌, Option, none,
  some, ltb, ◌==◌, if◌then◌else◌, arith, length, replicate, take, length-replicate, length-append,
  lt→ltb, le→ltb, subst, ◌-◌, append-nil, append_assoc,
}
use thread_library.Net.EventLoopThreadPool.{LoopPool, set_thread_num, add_loop}
use thread_library.Net.EventLoopThreadPool
use thread_library.Threads.ThreadPool.{ThreadPool, Place, waits, enters, ran, queued, run_task}
use thread_library.Threads.ThreadPool

-- The one task of the pool, `EventLoopThreadPool::Task`.
pub data PoolTask : Type 0 where
  run_loop : PoolTask

-- `busy` is how many workers are in a loop.
pub record Staff : Type 0 where
  pub pool : LoopPool
  pub workers : ThreadPool PoolTask
  pub busy : ℕ

unfoldable pub create : ℕ → Staff
unfolding EventLoopThreadPool.create ThreadPool.create
create base = record {
  pool = EventLoopThreadPool.create base;
  workers = ThreadPool.create;
  busy = 0;
}

-- Nothing if the caller waits, or is itself in a loop.
unfoldable pub push_tasks : ℕ → ThreadPool PoolTask → Option (ThreadPool PoolTask)
unfolding run_task
push_tasks zero w = some w
push_tasks (suc n) w = elim (run_task run_loop w) [
  | waits ↦ none
  | enters ran v ↦ none
  | enters queued v ↦ push_tasks n v
]

unfoldable pub start : Staff → Option Staff
unfolding push_tasks ThreadPool.start
start c = elim (push_tasks c.pool.thread_num (ThreadPool.start c.pool.thread_num c.workers)) [
  | none ↦ none
  | some w ↦ some (record c { workers = w })
]

-- A worker that is in no loop asks for a task; `loop` is the pointer that `new` gives to it.
unfoldable pub begin_loop : ℕ → Staff → Staff
unfolding ThreadPool.take add_loop
begin_loop loop c =
    if ltb c.busy c.workers.threads
    then elim (ThreadPool.take c.workers) [
      | waits ↦ c
      | enters none w ↦ record c { workers = w }
      | enters (some task) w ↦ record {
        pool = add_loop loop c.pool;
        workers = w;
        busy = c.busy + 1;
      }
    ]
    else c

unfoldable pub begin_loops : List ℕ → Staff → Staff
unfolding begin_loop
begin_loops [] c = c
begin_loops (loop ∷ loops) c = begin_loops loops (begin_loop loop c)

-- The pool after `SetThreadNum(n)` and, when it returns, `Start`.
abbrev pub start_with : ℕ → Staff → Option Staff
start_with n c = start (record c { pool = set_thread_num n c.pool })
