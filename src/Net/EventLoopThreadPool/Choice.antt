-- ===== src/Net/EventLoopThreadPool/Choice.antt =====
-- Which loop a new connection gets.
use thread_library.Prelude.{
  ℕ, zero, suc, ◌≡◌, refl, List, [], ◌∷◌, ◌==◌, true, false, replicate, ltb, lt→ltb, arith, length,
}
use thread_library.Prelude.Outcome.{ok, fault}
use thread_library.Net.EventLoopThreadPool.{LoopPool, get_next_loop, get_next_loops}

-- A pool of two or more threads, whose loops are there, gives every one of any number of connections to
-- its first loop, and none to another.
pub get_next_loops-replicate :
    (base first second : ℕ) (others : List ℕ) (n : ℕ)
    → let p : LoopPool = record {
      base = base;
      loops = first ∷ second ∷ others;
      thread_num = length (first ∷ second ∷ others);
      current_index = 0;
    } in
      get_next_loops n p ≡ ok (replicate n first, p)
unfolding get_next_loops get_next_loop
get_next_loops-replicate base first second others zero = refl
get_next_loops-replicate base first second others (suc n) =
    let some_threads : (0 == length (first ∷ second ∷ others)) ≡ false = ground arith in
    let more : ltb 1 (length (first ∷ second ∷ others)) ≡ true = lt→ltb _ _ (omega arith) in
    rw some_threads (rw more (rw (get_next_loops-replicate base first second others n) refl))

-- A pool of one thread gives its loop once; the next call reads behind the end of the vector.
get_next_loops_one :
    (base only : ℕ)
    → let p : LoopPool = record {
      base = base;
      loops = only ∷ [];
      thread_num = 1;
      current_index = 0;
    } in
      (get_next_loops 1 p ≡ ok (only ∷ [], record p { current_index = 1 }))
      × (get_next_loops 2 p ≡ fault)
unfolding get_next_loops get_next_loop
get_next_loops_one base only = (refl, refl)
