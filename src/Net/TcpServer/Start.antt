-- ===== src/Net/TcpServer/Start.antt =====
-- `Start` of framework/net/src/TcpServer.cpp: the server with the threads of its pool and its acceptor.
use thread_library.Prelude.{
  ℕ, suc, ◌≡◌, refl, ap, Bool, true, take, false, ◌==◌, arith, List, [], ◌∷◌, Option, none, some,
}
use thread_library.Prelude.Outcome.{Outcome, ok, Returns, Returns->>=, fault, ◌>>=◌}
use thread_library.Net.EventLoopThreadPool.{LoopPool, get_next_loop, set_thread_num}
use thread_library.Net.EventLoopThreadPool
use thread_library.Net.EventLoopThreadPool.Starts.{Staff, start_with, begin_loops}
use thread_library.Net.EventLoopThreadPool.Starts.Once.{
  first_start, first_start_lem, first_start-Has, begin_loops-Begun,
}
use thread_library.Net.EventLoopThreadPool.Starts
use thread_library.Net.Acceptor.{Acceptor, listened, poll_update, set_new_connection_callback}
use thread_library.Net.Acceptor
use thread_library.Net.TcpServer.{TcpServer, Served, handle_new_connection}
use thread_library.Net.TcpServer
use thread_library.Threads.ThreadPool.{ThreadPool}

pub record Site : Type 0 where
  pub server : TcpServer
  pub workers : ThreadPool Starts.PoolTask
  pub busy : ℕ
  pub acceptor : Acceptor

-- `create loop name fd idle`: the loop, the name, and the two descriptors of the acceptor.
unfoldable pub create : ℕ → List ℕ → ℕ → ℕ → Site
unfolding TcpServer.create Acceptor.create
create loop name fd idle = record {
  server = TcpServer.create loop name;
  workers = (Starts.create loop).workers;
  busy = 0;
  acceptor = Acceptor.create loop fd idle;
}

abbrev staff : Site → Staff
staff s = record { pool = s.server.pool; workers = s.workers; busy = s.busy }

abbrev with_staff : Staff → Site → Site
with_staff c s = record s {
  server = record s.server { pool = c.pool };
  workers = c.workers;
  busy = c.busy;
}

abbrev listening : Acceptor → Site → Site
listening a s = record s { acceptor = a }

-- Nothing if the pool's Start does not return.
unfoldable pub start : Bool → ℕ → Site → Option (Outcome Site)
unfolding Acceptor.start set_new_connection_callback
start in_loop thread_num s = elim (start_with thread_num (staff s)) [
  | none ↦ none
  | some c ↦ some (
      Acceptor.start in_loop (set_new_connection_callback s.acceptor) >>= λ a.
      ok (listening a (with_staff c s)))
]

-- Turns of the workers, by the loops that they make.
pub make_loops : List ℕ → Site → Site
make_loops loops s = with_staff (begin_loops loops (staff s)) s

get_next_loop_first :
    (p : LoopPool) (n first : ℕ) (rest : List ℕ)
    → p.thread_num ≡ suc n
    → p.current_index ≡ 0
    → p.loops ≡ first ∷ rest
    → Returns (get_next_loop p) (λ r. r.0 ≡ first)
unfolding get_next_loop
get_next_loop_first p n first rest t c l =
    let more : (0 == p.thread_num) ≡ false = ground (arith, t) in rw more (rw c (rw l refl))

serves :
    (print : ℕ → List ℕ) (closes : ℕ → Bool) (fd loop : ℕ) (s : TcpServer)
    → Returns (get_next_loop s.pool) (λ r. r.0 ≡ loop)
    → Returns (handle_new_connection print closes fd s) (λ r. r.0.loop ≡ loop)
unfolding handle_new_connection TcpServer.serve
serves print closes fd loop s h = Returns->>= (get_next_loop s.pool) _ _ _ h (λ r e. e)

-- A server that listens, at the times before and after its workers have made a loop.
pub record Started (n : ℕ) (s : Site) : Type 0 where
  pub accepts : s.acceptor.has_callback ≡ true
  pub listens : s.acceptor.trace ≡ listened ∷ poll_update s.acceptor.channel.interested ∷ []
  pub early :
      (print : ℕ → List ℕ) (closes : ℕ → Bool) (fd : ℕ)
      → handle_new_connection print closes fd s.server ≡ fault
  pub late :
      (print : ℕ → List ℕ) (closes : ℕ → Bool) (fd first : ℕ) (rest : List ℕ)
      → Returns
          (handle_new_connection print closes fd (make_loops (first ∷ rest) s).server)
          (λ r. r.0.loop ≡ first)

record Ready (a : Acceptor) : Type 0 where
  callback : a.has_callback ≡ true
  opened : a.trace ≡ listened ∷ poll_update a.channel.interested ∷ []

acceptor_start :
    (loop fd idle : ℕ)
    → (a : Acceptor) × (Acceptor.start true
          (set_new_connection_callback (Acceptor.create loop fd idle))
        ≡ ok a)
      × Ready a
unfolding Acceptor.start Acceptor.create set_new_connection_callback
acceptor_start loop fd idle = (_, refl, record { callback = refl; opened = refl })

late_lem :
    (loop n fd idle : ℕ) (name : List ℕ) (a : Acceptor) (print : ℕ → List ℕ) (closes : ℕ → Bool)
    (sock first : ℕ) (rest : List ℕ)
    → let s = listening a (with_staff (first_start loop (suc n)) (create loop name fd idle)) in
      Returns
        (handle_new_connection print closes sock (make_loops (first ∷ rest) s).server)
        (λ r. r.0.loop ≡ first)
unfolding make_loops first_start Starts.create set_thread_num EventLoopThreadPool.create
late_lem loop n fd idle name a print closes sock first rest =
    let s = listening a (with_staff (first_start loop (suc n)) (create loop name fd idle)) in
    let t =
      begin_loops-Begun (suc n) (suc n) (first ∷ rest) (first_start loop (suc n))
        (first_start-Has loop (suc n)) in
    serves print closes sock first (make_loops (first ∷ rest) s).server (
      get_next_loop_first (begin_loops (first ∷ rest) (first_start loop (suc n))).pool n first
        (take n rest) t.thread_num t.current_index t.made)

-- Start of a new server with `n + 1` threads, in the acceptor's loop, returns. Then the acceptor has the server's
-- callback and listens; a connection that comes before a worker has made its loop is a fault, and the first one
-- that comes when some have, however many, is served by the loop made first.
pub start-Started :
    (loop n fd idle : ℕ) (name : List ℕ)
    → (s : Site) × (start true (suc n) (create loop name fd idle) ≡ some (ok s)) × Started n s
unfolding start create handle_new_connection get_next_loop first_start Starts.create set_thread_num
    EventLoopThreadPool.create TcpServer.create
start-Started loop n fd idle name =
    let (a, e, r) = acceptor_start loop fd idle in
    let c = first_start loop (suc n) in
    let s0 = create loop name fd idle in
    let some_threads : (0 == suc n) ≡ false = ground arith in
    (
      listening a (with_staff c s0),
      rw (first_start_lem loop (suc n), start)
          (ap (λ m. some (m >>= λ b. ok (listening b (with_staff c s0)))) e),
      record {
        accepts = r.callback;
        listens = r.opened;
        early = λ print closes sock. rw (some_threads, get_next_loop) refl;
        late = late_lem loop n fd idle name a;
      },
    )
