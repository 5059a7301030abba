-- ===== src/Net/TcpServer.antt =====
-- framework/net/include/TcpServer.hpp and framework/net/src/TcpServer.cpp. Callbacks are numbers of the
-- user's functions, and the number that snprintf prints into the name is printed by the argument
-- `print`.
pub mod Connections
pub mod Start
mod Tests
use thread_library.Prelude.{
  ℕ, zero, suc, ◌+◌, Bool, true, false, ◌&&◌, List, [], ◌∷◌, ◌++◌, Option, none, some, ◌==◌,
  if◌then◌else◌,
}
use thread_library.Prelude.Outcome.{Outcome, ok, ◌>>=◌}
use thread_library.Net.EventLoopThreadPool.{LoopPool, get_next_loop, set_thread_num}
use thread_library.Net.EventLoopThreadPool

-- An empty function, the library's default, or one of the user's.
pub data Callback : Type 0 where
  unset default_callback : Callback
  user : ℕ → Callback

abbrev is_set : Callback → Bool
is_set unset = false
is_set _ = true

-- What the server sets of a TcpConnection.
pub record Served : Type 0 where
  pub loop : ℕ
  pub name : List ℕ
  pub fd : ℕ
  pub connection_callback : Callback
  pub message_callback : Callback
  pub write_complete_callback : Callback

pub record TcpServer : Type 0 where
  -- `connect_`, by name
  pub connections : List (List ℕ × Served)
  -- the connections whose ConnectEstablished ran at once, and those whose loop it was queued in
  pub established : List Served
  pub queued : List Served
  pub next_connect_id : ℕ
  pub name : List ℕ
  pub pool : LoopPool
  pub connect_callback : Callback
  pub message_callback : Callback
  pub write_complete_callback : Callback

unfoldable pub create : ℕ → List ℕ → TcpServer
create loop name = record {
  connections = [];
  established = [];
  queued = [];
  next_connect_id = 1;
  name = name;
  pool = EventLoopThreadPool.create loop;
  connect_callback = unset;
  message_callback = unset;
  write_complete_callback = unset;
}

unfoldable pub set_connection_callback : Callback → TcpServer → TcpServer
set_connection_callback cb s = record s { connect_callback = cb }

unfoldable pub set_message_callback : Callback → TcpServer → TcpServer
set_message_callback cb s = record s { message_callback = cb }

unfoldable pub set_write_complete_callback : Callback → TcpServer → TcpServer
set_write_complete_callback cb s = record s { write_complete_callback = cb }

abbrev pub same_name : List ℕ → List ℕ → Bool
same_name [] [] = true
same_name (x ∷ xs) (y ∷ ys) = x == y && same_name xs ys
same_name _ _ = false

unfoldable pub find : {A : Type 0} → List ℕ → List (List ℕ × A) → Option A
find name [] = none
find name ((n, a) ∷ rest) = let later = find name rest in if same_name name n then some a else later

-- `std::map::insert` keeps the entry that has the key already.
unfoldable pub insert : {A : Type 0} → List ℕ → A → List (List ℕ × A) → List (List ℕ × A)
unfolding find
insert name a entries = elim (find name entries) [
  | none ↦ entries ++ (name, a) ∷ []
  | some _ ↦ entries
]

-- `std::map::erase`
unfoldable pub erase : {A : Type 0} → List ℕ → List (List ℕ × A) → List (List ℕ × A)
erase name [] = []
erase name ((n, a) ∷ rest) =
    let later = erase name rest in if same_name name n then later else (n, a) ∷ later

-- The callbacks that `HandleNewConnection` gives to a connection, which has the defaults before.
unfoldable pub serve : ℕ → List ℕ → ℕ → TcpServer → Served
serve loop name fd s = record {
  loop = loop;
  name = name;
  fd = fd;
  connection_callback = if is_set s.connect_callback then s.connect_callback else default_callback;
  message_callback = default_callback;
  write_complete_callback = if is_set s.message_callback then s.write_complete_callback else unset;
}

unfoldable pub default_close_back : Served → TcpServer → TcpServer
unfolding erase
default_close_back c s = record s { connections = erase c.name s.connections }

-- `RunInLoop` of ConnectEstablished, which calls the connection callback: at once if the connection's loop
-- is the server's own, else later in that loop. `closes` says for which descriptors the user's callback
-- closes the connection, which calls DefaultCloseBack.
unfoldable pub run_established : (ℕ → Bool) → Served → TcpServer → TcpServer
unfolding default_close_back
run_established closes c s =
    if c.loop == s.pool.base
    then if closes c.fd && is_set s.connect_callback
      then default_close_back c (record s { established = s.established ++ c ∷ [] })
      else record s { established = s.established ++ c ∷ [] }
    else record s { queued = s.queued ++ c ∷ [] }

unfoldable pub handle_new_connection :
    (ℕ → List ℕ) → (ℕ → Bool) → ℕ → TcpServer → Outcome (Served × TcpServer)
unfolding serve insert run_established
handle_new_connection print closes fd s = get_next_loop s.pool >>= λ r.
    let name = s.name ++ b'-' ∷ print s.next_connect_id in
    let c = serve r.0 name fd s in
    ok (
      c,
      run_established closes c (record s { pool = r.1; connections = insert name c s.connections }),
    )

-- A row of new connections.
unfoldable pub accept_all :
    (ℕ → List ℕ) → (ℕ → Bool) → List ℕ → TcpServer → Outcome (List Served × TcpServer)
unfolding handle_new_connection
accept_all print closes [] s = ok ([], s)
accept_all print closes (fd ∷ fds) s =
    handle_new_connection print closes fd s
    >>= (λ r. accept_all print closes fds r.1 >>= (λ t. ok (r.0 ∷ t.0, t.1)))
