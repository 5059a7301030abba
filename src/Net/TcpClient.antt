-- ===== src/Net/TcpClient.antt =====
-- framework/net/include/TcpClient.hpp and framework/net/src/TcpClient.cpp. The client owns a Connector and
-- at most one TcpConnection; `queued_destroyed` counts the calls of ConnectDestroyed that it queued. The
-- assertions of RemoveConnection name a member that the class does not have, and are left out.
pub mod Connections
mod Tests
use thread_library.Prelude.{
  ℕ, ◌+◌, Bool, true, false, not, ◌&&◌, ◌||◌, List, [], ◌∷◌, ◌++◌, Option, none, some,
  if◌then◌else◌, take,
}
use thread_library.Prelude.Outcome.{Outcome, ok, fatal, ◌>>=◌}
use thread_library.Net.Connector.{Connector, start, restart, stop}
use thread_library.Net.Connector
use thread_library.Net.TcpConnection.{
  Connection, connect_established, shutdown, force_close, handle_close, Effect, called_close,
}
use thread_library.Net.TcpConnection

pub record TcpClient : Type 0 where
  pub loop : ℕ
  pub connector : Connector
  pub name : List ℕ
  pub retry : Bool
  pub connect : Bool
  pub next_connect_id : ℕ
  -- which callbacks are set
  pub has_connection : Bool
  pub has_message : Bool
  pub has_write_complete : Bool
  -- the name of the connection, and the connection
  pub connection : Option (List ℕ × Connection)
  pub queued_destroyed : ℕ

-- A new client has the default callbacks for the connection and for messages.
unfoldable pub create : ℕ → List ℕ → TcpClient
create loop name = record {
  loop = loop;
  connector = Connector.create loop;
  name = name;
  retry = false;
  connect = true;
  next_connect_id = 1;
  has_connection = true;
  has_message = true;
  has_write_complete = false;
  connection = none;
  queued_destroyed = 0;
}

unfoldable pub enable_retry : TcpClient → TcpClient
enable_retry c = record c { retry = true }

unfoldable pub set_connection_callback : TcpClient → TcpClient
set_connection_callback c = record c { has_connection = true }

unfoldable pub set_message_callback : TcpClient → TcpClient
set_message_callback c = record c { has_message = true }

unfoldable pub set_write_complete_callback : TcpClient → TcpClient
set_write_complete_callback c = record c { has_write_complete = true }

-- `Connect`
unfoldable connect_client : Bool → Connector.Attempt → TcpClient → Outcome TcpClient
unfolding start
connect_client in_loop a c =
    start in_loop a c.connector >>= λ k. ok (record c { connector = k; connect = true })

-- `Disconnect`
unfoldable disconnect : Bool → TcpClient → Outcome TcpClient
unfolding shutdown
disconnect in_loop c = elim c.connection [
  | none ↦ ok (record c { connect = false })
  | some (n, t) ↦
      shutdown in_loop t >>= λ u. ok (record c { connect = false; connection = some (n, u) })
]

unfoldable stop_client : TcpClient → TcpClient
unfolding stop
stop_client c = record c { connect = false; connector = stop c.connector }

-- The name of the next connection: `peer` is the peer's address, `print` what snprintf makes of a number;
-- it writes into 60 bytes.
unfoldable pub connection_name : (ℕ → List ℕ) → List ℕ → TcpClient → List ℕ
connection_name print peer c = c.name ++ take 59 (b':' ∷ (peer ++ b'#' ∷ print c.next_connect_id))

-- A TcpConnection with the callbacks of the client, among them its close callback.
unfoldable pub new_tcp_connection : ℕ → TcpClient → Connection
unfolding TcpConnection.create
new_tcp_connection fd c = record (TcpConnection.create c.loop fd) {
  handlers = record {
    has_connection = c.has_connection;
    has_message = c.has_message;
    has_write_complete = c.has_write_complete;
    has_high_water = false;
    has_close = true;
  };
}

unfoldable pub new_connection : (ℕ → List ℕ) → List ℕ → Bool → ℕ → TcpClient → Outcome TcpClient
unfolding connection_name new_tcp_connection connect_established
new_connection print peer in_loop fd c =
    if in_loop
    then (connect_established true (new_tcp_connection fd c) >>= (λ t. ok (record c {
      next_connect_id = c.next_connect_id + 1;
      connection = some (connection_name print peer c, t);
    })))
    else fatal

-- The test of the thread is the other way round than elsewhere.
unfoldable pub remove_connection : Bool → Connector.Attempt → TcpClient → Outcome TcpClient
unfolding restart
remove_connection in_loop a c =
    let d : TcpClient = record c { connection = none; queued_destroyed = c.queued_destroyed + 1 } in
    if in_loop
    then fatal
    else if c.retry && c.connect
    then (restart in_loop a d.connector >>= (λ k. ok (record d { connector = k })))
    else ok d

-- Whether the close callback is among the calls of a connection.
abbrev pub is_close : Effect → Bool
is_close called_close = true
is_close _ = false

abbrev pub calls_close : List Effect → Bool
calls_close [] = false
calls_close (e ∷ es) = is_close e || calls_close es

-- `HandleClose` of the client's connection, in the loop's thread: the close callback that it calls is
-- RemoveConnection.
unfoldable pub close_connection : Connector.Attempt → Connection → TcpClient → Outcome TcpClient
unfolding handle_close remove_connection
close_connection a t c = handle_close true (record t { trace = [] }) >>= λ u.
    if calls_close u.trace then remove_connection true a c else ok c

-- The destructor; `unique` says whether nobody else holds the connection. Its new close callback only
-- queues ConnectDestroyed.
unfoldable pub destroy : Bool → Bool → TcpClient → Outcome TcpClient
unfolding stop force_close
destroy in_loop unique c = elim c.connection [
  | none ↦ ok (record c { connector = stop c.connector })
  | some (n, t) ↦
      if unique
      then (force_close in_loop t >>= (λ u. ok (record c { connection = some (n, u) })))
      else ok c
]
