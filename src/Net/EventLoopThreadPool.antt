-- ===== src/Net/EventLoopThreadPool.antt =====
-- framework/net/include/EventLoopThreadPool.hpp and framework/net/src/EventLoopThreadPool.cpp. A loop is
-- its number, and `loops` is `eventloop_vec`, filled by the threads that `Start` runs.
pub mod Choice
pub mod Starts
mod Tests
use thread_library.Prelude.{
  ℕ, zero, suc, ◌+◌, List, [], ◌∷◌, ◌++◌, Option, none, some, get_elem?, ltb, ◌==◌, if◌then◌else◌,
}
use thread_library.Prelude.Outcome.{Outcome, ok, fault, ◌>>=◌}

pub record LoopPool : Type 0 where
  pub base : ℕ
  pub loops : List ℕ
  pub thread_num : ℕ
  pub current_index : ℕ

unfoldable pub create : ℕ → LoopPool
create base = record { base = base; loops = []; thread_num = 0; current_index = 0 }

unfoldable pub set_thread_num : ℕ → LoopPool → LoopPool
set_thread_num value p = record p { thread_num = value }

-- `Task`, as far as the pool sees it.
unfoldable pub add_loop : ℕ → LoopPool → LoopPool
add_loop loop p = record p { loops = p.loops ++ loop ∷ [] }

-- An index outside of the vector is a fault.
unfoldable pub get_next_loop : LoopPool → Outcome (ℕ × LoopPool)
get_next_loop p =
    if 0 == p.thread_num then ok (p.base, p) else elim (get_elem? p.loops p.current_index) [
      | none ↦ fault
      | some loop ↦
          (let i = p.current_index + 1 in
            ok (loop, record p { current_index = if ltb i p.thread_num then 0 else i }))
    ]

-- `n` calls in a row.
unfoldable pub get_next_loops : ℕ → LoopPool → Outcome (List ℕ × LoopPool)
unfolding get_next_loop
get_next_loops zero p = ok ([], p)
get_next_loops (suc n) p =
    get_next_loop p >>= (λ r. get_next_loops n r.1 >>= (λ s. ok (r.0 ∷ s.0, s.1)))
