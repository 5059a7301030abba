-- ===== src/Net/EventLoop.antt =====
-- framework/net/include/EventLoop.hpp and framework/net/src/EventLoop.cpp: the queue of tasks. A task is
-- a number, and the argument `body` says which tasks it queues when it runs.
pub mod Tasks
pub mod Loop
pub mod Channels
pub mod Threads
mod Tests
use thread_library.Prelude.{
  ℕ, ◌+◌, Bool, true, false, not, ◌||◌, List, [], ◌∷◌, ◌++◌, if◌then◌else◌,
}

pub record EventLoop : Type 0 where
  pub tasks : List ℕ
  pub doing_task : Bool
  -- the counter of the wake-up descriptor, which is readable while it is not 0
  pub wake_ups : ℕ
  -- the tasks that have run, in order
  pub ran : List ℕ

unfoldable pub create : EventLoop
create = record { tasks = []; doing_task = false; wake_ups = 0; ran = [] }

unfoldable pub wake_up : EventLoop → EventLoop
wake_up l = record l { wake_ups = l.wake_ups + 1 }

-- `HandleRead` of the wake-up channel: a read(2) takes the whole counter.
abbrev pub handle_read : EventLoop → EventLoop
handle_read l = record l { wake_ups = 0 }

unfoldable pub queue_in_loop : Bool → ℕ → EventLoop → EventLoop
unfolding wake_up
queue_in_loop in_thread t l =
    let q : EventLoop = record l { tasks = l.tasks ++ t ∷ [] } in
    if not in_thread || l.doing_task then wake_up q else q

-- The tasks that a task queues, in the loop's thread.
unfoldable pub queue_all : List ℕ → EventLoop → EventLoop
unfolding queue_in_loop
queue_all [] l = l
queue_all (t ∷ ts) l = queue_all ts (queue_in_loop true t l)

unfoldable pub run_one : (ℕ → List ℕ) → ℕ → EventLoop → EventLoop
unfolding queue_all
run_one body t l = queue_all (body t) (record l { ran = l.ran ++ t ∷ [] })

unfoldable run_in_loop : (ℕ → List ℕ) → Bool → ℕ → EventLoop → EventLoop
unfolding run_one queue_in_loop
run_in_loop body in_thread t l = if in_thread then run_one body t l else queue_in_loop false t l

unfoldable pub run_all : (ℕ → List ℕ) → List ℕ → EventLoop → EventLoop
unfolding run_one
run_all body [] l = l
run_all body (t ∷ ts) l = run_all body ts (run_one body t l)

-- The tasks are taken under the mutex and run outside of it.
unfoldable pub do_pending_task : (ℕ → List ℕ) → EventLoop → EventLoop
unfolding run_all
do_pending_task body l =
    record (run_all body l.tasks (record l { tasks = []; doing_task = true })) {
      doing_task = false;
    }
