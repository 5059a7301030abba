-- ===== src/Threads/BlockingQueue.antt =====
-- framework/thread/include/BlockingQueue.hpp. A critical section is one step; a thread that finds the queue
-- empty sleeps in `take`, and tests again when it is woken.
pub mod Order
use thread_library.Prelude.{
  ℕ, ◌+◌, Bool, List, [], ◌∷◌, ◌++◌, Option, none, some, length, ltb, if◌then◌else◌,
}
use thread_library.Threads.Condition.{Waiters, nobody, wait, notify, returned}

pub record BlockingQueue {ℓ} (A : Type ℓ) : Type ℓ where
  pub queue : List A
  pub not_empty : Waiters

unfoldable pub create {ℓ} : {A : Type ℓ} → BlockingQueue A
create = record { queue = []; not_empty = nobody }

unfoldable pub put {ℓ} : {A : Type ℓ} → A → BlockingQueue A → BlockingQueue A
put x b = record { queue = b.queue ++ x ∷ []; not_empty = notify b.not_empty }

-- The loop of `take` with what follows it; nothing is returned by a thread that goes to sleep.
unfoldable pub take_from {ℓ} : {A : Type ℓ} → List A → Waiters → Option A × BlockingQueue A
take_from [] w = (none, record { queue = []; not_empty = wait w })
take_from (x ∷ xs) w = (some x, record { queue = xs; not_empty = w })

unfoldable pub take {ℓ} : {A : Type ℓ} → BlockingQueue A → Option A × BlockingQueue A
unfolding take_from
take b = take_from b.queue b.not_empty

-- A woken thread, if there is one, goes on in the loop.
unfoldable pub take_again {ℓ} : {A : Type ℓ} → BlockingQueue A → Option A × BlockingQueue A
unfolding take_from
take_again b =
    if ltb 0 b.not_empty.woken then take_from b.queue (returned b.not_empty) else (none, b)

unfoldable pub size {ℓ} : {A : Type ℓ} → BlockingQueue A → ℕ
size b = length b.queue
