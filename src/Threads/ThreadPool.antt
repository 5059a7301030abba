-- ===== src/Threads/ThreadPool.antt =====
-- framework/thread/include/ThreadPool.hpp and framework/thread/src/ThreadPool.cpp. Each critical section
-- under the mutex is one step; a thread that waits for a condition makes no step.
pub mod Order
pub mod Workers
pub mod Wakeups
pub mod Joins
use thread_library.Prelude.{
  ℕ, ◌+◌, Bool, true, false, ◌&&◌, not, List, [], ◌∷◌, ◌++◌, Option, none, some, length, ltb, leb,
  ◌==◌, if◌then◌else◌,
}

pub record ThreadPool {ℓ} (A : Type ℓ) : Type ℓ where
  pub threads : ℕ
  pub running : Bool
  pub max_queue_size : ℕ
  pub queue : List A

unfoldable pub create {ℓ} : {A : Type ℓ} → ThreadPool A
create = record { threads = 0; running = false; max_queue_size = 0; queue = [] }

-- The threads that are made run `runInThread`.
unfoldable pub start {ℓ} : {A : Type ℓ} → ℕ → ThreadPool A → ThreadPool A
start num_threads p =
    if p.threads == 0 then record p { running = true; threads = num_threads } else p

unfoldable pub stop {ℓ} : {A : Type ℓ} → ThreadPool A → ThreadPool A
stop p = record p { running = false }

unfoldable pub is_full {ℓ} : {A : Type ℓ} → ThreadPool A → Bool
is_full p = ltb 0 p.max_queue_size && leb p.max_queue_size (length p.queue)

-- What a thread finds once it holds the mutex: it waits, or goes on with a value and leaves the pool.
pub data Entry {ℓ κ} (A : Type ℓ) (B : Type κ) : Type (ℓ ⊔ κ) where
  waits : Entry A B
  enters : B → ThreadPool A → Entry A B

-- The task is empty if the pool is stopped and has none.
unfoldable pub take_from {ℓ} : {A : Type ℓ} → List A → ThreadPool A → Entry A (Option A)
take_from [] p = if p.running then waits else enters none p
take_from (t ∷ ts) p = enters (some t) (record p { queue = ts })

unfoldable pub take {ℓ} : {A : Type ℓ} → ThreadPool A → Entry A (Option A)
unfolding take_from
take p = take_from p.queue p

-- Where a task went: the caller ran it, or it is in the queue.
pub data Place : Type 0 where
  ran queued : Place

-- The loop of `runTask` and the push behind it.
unfoldable pub push_task {ℓ} : {A : Type ℓ} → A → ThreadPool A → Entry A Place
unfolding is_full
push_task t p = if is_full p then waits else enters queued (record p { queue = p.queue ++ t ∷ [] })

unfoldable pub run_task {ℓ} : {A : Type ℓ} → A → ThreadPool A → Entry A Place
unfolding push_task
run_task t p = if p.threads == 0 then enters ran p else push_task t p
