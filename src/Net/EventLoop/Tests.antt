-- ===== src/Net/EventLoop/Tests.antt =====
-- Runs of a loop: a round of two tasks, of which the first queues two more; two turns; and a channel.
use thread_library.Prelude.{ℕ, ◌==◌, List, [], ◌∷◌, if◌then◌else◌, false}
use thread_library.Net.EventLoop.{EventLoop, create, queue_in_loop}
use thread_library.Net.EventLoop.Threads
use thread_library.Net.EventLoop.Threads.{InThread}
use thread_library.Net.EventLoop.Threads.OnePerThread.{WellBorn, loop_life}
use thread_library.Prelude.Int.{pos}
use thread_library.Prelude.{none, arith, ◌≡◌, refl, true, some, ◌+◌}
use thread_library.Prelude.Outcome.{ok, Returns, ◌>>=◌}
use thread_library.Net.Channel
use thread_library.Net.Channel.{Channel}
use thread_library.Net.Poller
use thread_library.Net.Poller.Consistent.{IsConsistent, create-IsConsistent}
use thread_library.Net.EventLoop.Loop.{Looping, Round, queues, quits, run_loop}
use thread_library.Net.EventLoop.Loop.Ends.{EndsWith, run_due, left_due, run_loop_ends}
use thread_library.Net.EventLoop.Channels.{
  enables_reading, disables_all, switch_all, remove_self, has_channel,
}
use thread_library.Net.EventLoop.Channels.Switches.{channel_life}

abbrev body : ℕ → List ℕ
body n = if n == 1 then 3 ∷ 4 ∷ [] else []

abbrev loop : EventLoop
loop = queue_in_loop false 2 (queue_in_loop false 1 create)

abbrev idle : Looping
idle = record { loop = create; looping = false; quit = false; handled = [] }

-- Two other threads queue a task each, and the second one quits.
abbrev first : Round
first = record { interrupted = false; before = queues 1 ∷ []; active = []; within = [] }

abbrev second : Round
second = record { interrupted = false; before = queues 5 ∷ quits ∷ []; active = []; within = [] }

run_loop_ends_example :
    Returns
      (run_loop body true (first ∷ second ∷ []) idle)
      (EndsWith (run_due body [] (first ∷ second ∷ [])) (left_due body [] (first ∷ second ∷ [])))
unfolding create
run_loop_ends_example =
    run_loop_ends body (first ∷ []) second [] idle refl (refl, tt) refl (refl, tt) refl

run_due_example : run_due body [] (first ∷ second ∷ []) ≡ 1 ∷ 3 ∷ 4 ∷ 5 ∷ []
run_due_example = refl

abbrev memory : ℕ → Channel
memory p = Channel.create 1 (p + 10)

channel_life_example :
    Returns
      (switch_all 1 true (enables_reading true ∷ disables_all ∷ []) 4 (Poller.create memory)
        >>= λ u. remove_self 1 true 4 u)
      (λ u. IsConsistent u × (has_channel 1 true (some 4) u ≡ ok false))
unfolding Poller.create Channel.create
channel_life_example =
    channel_life 1 (enables_reading true) (disables_all ∷ []) 4 (Poller.create memory)
      (create-IsConsistent memory) (refl, refl) refl

-- Thread 2 has a loop already.
abbrev threads : InThread
threads t = if t == 2 then some 30 else none

loop_life_example :
    Returns (Threads.create 1 40 4 (pos 9) memory threads) (WellBorn 1 2 40 9 memory)
loop_life_example = loop_life 1 2 40 4 9 memory threads refl (λ e. absurd (omega (arith, e)))
