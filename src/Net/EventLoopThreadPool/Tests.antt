-- ===== src/Net/EventLoopThreadPool/Tests.antt =====
-- Choices of a pool of three threads.
use thread_library.Prelude.{◌≡◌, some, take, [], ◌∷◌}
use thread_library.Prelude.Outcome.{ok}
use thread_library.Net.EventLoopThreadPool.{LoopPool, get_next_loops}
use thread_library.Net.EventLoopThreadPool.Starts.{Staff, create, start_with, begin_loops}
use thread_library.Net.EventLoopThreadPool.Starts.Once.{starts_once}
use thread_library.Net.EventLoopThreadPool.Choice.{get_next_loops-replicate}

abbrev three : LoopPool
three = record { base = 1; loops = 2 ∷ 3 ∷ 4 ∷ []; thread_num = 3; current_index = 0 }

get_next_loops_example : get_next_loops 4 three ≡ ok (2 ∷ 2 ∷ 2 ∷ 2 ∷ [], three)
get_next_loops_example = get_next_loops-replicate 1 2 3 (4 ∷ []) 4

-- Two threads, and then three more that are not made.
starts_once_example :
    (c : Staff) × (start_with 2 (create 1) ≡ some c)
    × ((begin_loops (7 ∷ []) c).pool.loops ≡ take 2 (7 ∷ []))
    × (d : Staff) × (start_with 3 (begin_loops (7 ∷ []) c) ≡ some d)
    × ((begin_loops (8 ∷ 9 ∷ []) d).pool.loops ≡ take 2 (7 ∷ 8 ∷ 9 ∷ []))
starts_once_example = starts_once 1 1 3 (7 ∷ []) (8 ∷ 9 ∷ [])
