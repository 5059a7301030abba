-- ===== src/Net/TcpServer/Connections.antt =====
-- Which connections a server holds, and which callbacks they have.
use thread_library.Prelude.{
  ℕ, ◌≡◌, refl, ap, suc, Bool, true, false, List, [], ◌∷◌, ◌++◌, some, length, All, ==_true,
}
use thread_library.Prelude.Outcome.{Returns, Returns->>=}
use thread_library.Net.EventLoopThreadPool.{get_next_loop}
use thread_library.Net.TcpServer.{
  default_callback, Served, TcpServer, same_name, find, insert, erase, serve, run_established,
  handle_new_connection, default_close_back, accept_all,
}

same_name_refl : (xs : List ℕ) → same_name xs xs ≡ true
same_name_refl [] = refl
same_name_refl (x ∷ xs) = rw (==_true x x refl) (same_name_refl xs)

-- A connection of this name with the library's own message callback.
record IsMade (name : List ℕ) (c : Served) : Type 0 where
  named : c.name ≡ name
  message : c.message_callback ≡ default_callback

-- The server holds one connection, and what it makes next has the name of that.
record OneHeld (print : ℕ → List ℕ) (name : List ℕ) (c : Served) (s : TcpServer) : Type 0 where
  next : s.name ++ b'-' ∷ print s.next_connect_id ≡ name
  held : s.connections ≡ (name, c) ∷ []
  in_base : s.pool.thread_num ≡ 0

find_same : (name : List ℕ) (c : Served) → find name ((name, c) ∷ []) ≡ some c
unfolding find
find_same name c = rw (same_name_refl name) refl

insert_again : (name : List ℕ) (c d : Served) → insert name d ((name, c) ∷ []) ≡ (name, c) ∷ []
unfolding insert
insert_again name c d = rw (find_same name c, insert) refl

accept_next :
    (print : ℕ → List ℕ) (closes : ℕ → Bool) (fd : ℕ) (name : List ℕ) (c : Served) (s : TcpServer)
    → closes fd ≡ false
    → OneHeld print name c s
    → Returns
        (handle_new_connection print closes fd s)
        λ r. IsMade name r.0 × OneHeld print name c r.1
unfolding handle_new_connection run_established get_next_loop serve
accept_next print closes fd name c s stays h =
    rw (h.in_base, ==_true s.pool.base s.pool.base refl, stays)
      (
        record { named = h.next; message = refl },
        record {
          next = h.next;
          held = rw h.held (rw h.next (insert_again name c _));
          in_base = refl;
        },
      )

accept_rest :
    (print : ℕ → List ℕ) (closes : ℕ → Bool) (fds : List ℕ) (name : List ℕ) (c : Served)
    (s : TcpServer)
    → All (λ fd. closes fd ≡ false) fds
    → OneHeld print name c s
    → Returns
        (accept_all print closes fds s)
        λ r. (length r.0 ≡ length fds) × All (IsMade name) r.0 × OneHeld print name c r.1
unfolding accept_all
accept_rest print closes [] name c s stays h = (refl, tt, h)
accept_rest print closes (fd ∷ fds) name c s (stays, all_stay) h =
    Returns->>= (handle_new_connection print closes fd s) _ _ _
      (accept_next print closes fd name c s stays h)
      λ r k.
        Returns->>= (accept_all print closes fds r.1) _ _ _
          (accept_rest print closes fds name c r.1 all_stay k.1)
          λ t l. (ap suc l.0, (k.0, l.1), l.2)

-- What comes of a row of new connections: the server holds the first only, under a name that all of them
-- have, and each has the library's message callback.
pub record Accepted (n : ℕ) (made : List Served) (t : TcpServer) : Type 0 where
  pub count : length made ≡ n
  pub held : length t.connections ≡ 1
  pub closing : All (λ c. (default_close_back c t).connections ≡ []) made
  pub messages : All (λ c. c.message_callback ≡ default_callback) made

closed-All :
    (print : ℕ → List ℕ) (name : List ℕ) (c : Served) (t : TcpServer) (made : List Served)
    → OneHeld print name c t
    → All (IsMade name) made
    → All (λ c. (default_close_back c t).connections ≡ []) made
unfolding default_close_back erase
closed-All print name c t [] h k = tt
closed-All print name c t (d ∷ made) h k =
    (rw h.held (rw k.0.named (rw (same_name_refl name) refl)), closed-All print name c t made h k.1)

default-All :
    (name : List ℕ) (made : List Served)
    → All (IsMade name) made
    → All (λ c. c.message_callback ≡ default_callback) made
default-All name [] k = tt
default-All name (d ∷ made) k = (k.0.message, default-All name made k.1)

accept_first :
    (print : ℕ → List ℕ) (closes : ℕ → Bool) (fd : ℕ) (s : TcpServer)
    → s.connections ≡ []
    → s.pool.thread_num ≡ 0
    → closes fd ≡ false
    → let name = s.name ++ b'-' ∷ print s.next_connect_id in
      Returns
        (handle_new_connection print closes fd s)
        λ r. IsMade name r.0 × OneHeld print name (serve s.pool.base name fd s) r.1
unfolding handle_new_connection run_established get_next_loop insert find serve
accept_first print closes fd s none_held in_base stays =
    rw (in_base, ==_true s.pool.base s.pool.base refl, stays)
      (
        record { named = refl; message = refl },
        record { next = refl; held = rw none_held refl; in_base = refl },
      )

-- After any number of new connections, at least one, of which the user's connection callback closes none at
-- once, a server that held none and has no threads holds only one; the close callback of any one of them
-- deletes that one; and each has the library's message callback, whatever `SetMessageCallback` was given.
pub accept_all-Accepted :
    (print : ℕ → List ℕ) (closes : ℕ → Bool) (fd : ℕ) (fds : List ℕ) (s : TcpServer)
    → s.connections ≡ []
    → s.pool.thread_num ≡ 0
    → All (λ k. closes k ≡ false) (fd ∷ fds)
    → Returns (accept_all print closes (fd ∷ fds) s) λ r. Accepted (length (fd ∷ fds)) r.0 r.1
unfolding accept_all
accept_all-Accepted print closes fd fds s none_held in_base (stays, all_stay) =
    Returns->>= (handle_new_connection print closes fd s) _ _ _
      (accept_first print closes fd s none_held in_base stays)
      λ r k.
        Returns->>= (accept_all print closes fds r.1) _ _ _
          (accept_rest print closes fds _ _ r.1 all_stay k.1)
          λ t l. record {
            count = ap suc l.0;
            held = ap length l.2.held;
            closing = closed-All print _ _ t.1 (r.0 ∷ t.0) l.2 (k.0, l.1);
            messages = default-All _ (r.0 ∷ t.0) (k.0, l.1);
          }
