-- ===== src/Threads/Tests.antt =====
-- Small runs of framework/thread.
use thread_library.Prelude.{
  refl, arith, some, none, ◌==◌, if◌then◌else◌, ℕ, ◌<◌, ◌≡◌, [], ◌∷◌, ◌++◌, List, true, false, ◌⊎◌,
  ◌≤◌, ◌-◌, ◌+◌, length,
}
use thread_library.Prelude.Outcome.{fault, Returns}
use thread_library.Threads.Thread
use thread_library.Threads.Thread.Life.{unstarted, follow_all, in_all, Matches, calls-Matches_life}
use thread_library.Threads.BlockingQueue
use thread_library.Threads.BlockingQueue.Order.{takes_in_order}
use thread_library.Threads.ThreadPool.Joins
use thread_library.Threads.ThreadPool.Joins.{destroy_joins}
use thread_library.Threads.ThreadPool.Wakeups
use thread_library.Threads.ThreadPool.Wakeups.{wakes_all}
use thread_library.Threads.ThreadPool.Order
use thread_library.Threads.ThreadPool.Order.{
  Event, submits, takes, stops, run, fresh, IsOrdered, fresh-IsOrdered, run-IsOrdered,
}
use thread_library.Threads.ThreadPool.Workers
use thread_library.Threads.ThreadPool.Workers.{
  Crew, executes, finished, work_all, stop_crew, stop_ends,
}
use thread_library.Threads.MutexLock.{
  System, Reachable, starts, goes, locks, assigns, resets_to_wait, sleeps, to, entered, inside,
  will_wait, waits, is_locked_by_this_thread, assign_holder_pid, reset_holder_pid, MutexLock,
  initial,
}
use thread_library.Threads.MutexLock
use thread_library.Threads.MutexLock.Exclusion.{owns, is_inside, lock_excludes}

-- Two threads, three tasks, of which two are taken before the pool stops.
abbrev events : List (Event ℕ)
events = Order.starts 2 ∷ takes ∷ submits 5 ∷ submits 6 ∷ takes ∷ submits 7 ∷ takes ∷ stops ∷ []

run_example : IsOrdered (run events fresh)
run_example = run-IsOrdered events fresh fresh-IsOrdered

-- Thread 1 waits for the condition, and thread 2 has the mutex meanwhile.
abbrev locked : System
locked = to 1 entered (record initial.mutex { owner = some 1 }) initial

abbrev held : System
held = to 1 inside (assign_holder_pid 1 locked.mutex) locked

abbrev ready : System
ready = to 1 will_wait (reset_holder_pid held.mutex) held

abbrev asleep : System
asleep = to 1 waits (record ready.mutex { owner = none }) ready

abbrev relocked : System
relocked = to 2 entered (record asleep.mutex { owner = some 2 }) asleep

relocked-Reachable : Reachable relocked
unfolding MutexLock.moved MutexLock.initial MutexLock.create MutexLock.assign_holder_pid
    MutexLock.reset_holder_pid
relocked-Reachable =
    goes
      (goes
        (goes (goes (goes starts 1 (omega arith) (locks refl refl)) 1 (omega arith) (assigns refl))
          1 (omega arith) (resets_to_wait refl))
        1 (omega arith) (sleeps refl))
      2 (omega arith) (locks refl refl)

lock_excludes_example :
    ((t : ℕ) → 0 < t → is_locked_by_this_thread t relocked.mutex ≡ is_inside (relocked.place t))
    × ((t u : ℕ) → owns (relocked.place t) ≡ true → owns (relocked.place u) ≡ true → t ≡ u)
lock_excludes_example = lock_excludes relocked relocked-Reachable

-- One thread has a task, another sleeps in `take`, and a task is in the queue.
abbrev crew : Crew ℕ
crew = record {
  pool = record { threads = 2; running = true; max_queue_size = 0; queue = 9 ∷ [] };
  phase = λ i. if i == 0 then executes 8 else Workers.sleeps;
}

stop_ends_example : (work_all (λ _. true) (1 ∷ 0 ∷ 1 ∷ 1 ∷ []) (stop_crew crew)).phase 1 ≡ finished
stop_ends_example = stop_ends (λ _. true) (1 ∷ 0 ∷ 1 ∷ 1 ∷ []) crew 1 (λ t. refl) (omega arith)

-- Two workers sleep, one caller gives three tasks to a queue with one place, and the pool stops.
abbrev calls_of_pool : List (Wakeups.Event ℕ)
calls_of_pool =
    Wakeups.starts 2
    ∷ Wakeups.takes
    ∷ Wakeups.takes
    ∷ Wakeups.submits 5
    ∷ Wakeups.submits 6
    ∷ Wakeups.takes_again
    ∷ Wakeups.submits_again 6
    ∷ Wakeups.submits 7
    ∷ Wakeups.stops
    ∷ []

wakes_all_example :
    let s = Wakeups.run calls_of_pool (Wakeups.fresh 1) in
    ((s.not_empty.sleeping ≡ 0) ⊎ (length s.pool.queue ≤ s.not_empty.woken))
    × ((s.not_full.sleeping ≡ 0) ⊎ (s.pool.max_queue_size - length s.pool.queue ≤ s.not_full.woken))
    × ((s.not_empty.sleeping ≡ 0) ⊎ (s.pool.running ≡ true))
wakes_all_example = wakes_all 1 calls_of_pool

-- A thread that sleeps is woken for the first element, and another one gets it.
abbrev calls_of_queue : List (BlockingQueue.Order.Event ℕ)
calls_of_queue =
    BlockingQueue.Order.takes
    ∷ BlockingQueue.Order.puts 3
    ∷ BlockingQueue.Order.takes
    ∷ BlockingQueue.Order.takes_again
    ∷ BlockingQueue.Order.puts 4
    ∷ BlockingQueue.Order.puts 5
    ∷ []

takes_in_order_example :
    let h = BlockingQueue.Order.run calls_of_queue BlockingQueue.Order.fresh in
    (h.taken ++ h.state.queue ≡ h.given)
    × ((h.state.not_empty.sleeping ≡ 0) ⊎ (length h.state.queue ≤ h.state.not_empty.woken))
takes_in_order_example = takes_in_order calls_of_queue

-- pthread_create fails once, and the thread is not joined.
abbrev calls_of_thread : List Thread.Call
calls_of_thread = Thread.starts none ∷ Thread.starts (some 8) ∷ Thread.starts (some 9) ∷ []

calls-Matches_life_example :
    Matches
      (λ s t. (Thread.destroy t).trace ≡ in_all s t.pthread_id)
      (follow_all calls_of_thread unstarted)
      (Thread.calls calls_of_thread (Thread.create []))
calls-Matches_life_example = calls-Matches_life calls_of_thread []

abbrev print : ℕ → List ℕ
print n = (b'0' + n) ∷ []

destroy_joins_example :
    Returns
      (Joins.destroy (Joins.start_threads {A = ℕ} print [] (some 4 ∷ some 5 ∷ []) Joins.create))
      (λ o. (Joins.traces o.threads ≡ Joins.life 4 ∷ Joins.life 5 ∷ []) × (o.pool.running ≡ false))
    × (Joins.destroy (Joins.start_threads {A = ℕ} print [] (some 4 ∷ none ∷ []) Joins.create)
        ≡ fault)
destroy_joins_example = destroy_joins print [] (4 ∷ 5 ∷ []) (some 4 ∷ []) []
