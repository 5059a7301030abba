-- ===== src/Net/Connector.antt =====
-- framework/net/include/Connector.hpp and framework/net/src/Connector.cpp. The tasks that the connector
-- hands to its loop are queued in `tasks`; what it does to sockets, poller and callback is recorded in
-- `trace`, in order. The answers of the socket, and whether the caller is the loop's thread, are
-- arguments.
pub mod Events
pub mod Runs
pub mod Reports
mod Tests
use thread_library.Prelude.{
  ℕ, Bool, true, false, List, [], ◌∷◌, ◌++◌, Option, none, some, if◌then◌else◌,
}
use thread_library.Prelude.Outcome.{Outcome, ok, fatal, fault, ◌>>=◌}
use thread_library.Net.Channel.{
  Channel, Callback, on_read, on_write, on_close, on_error, enable_writing, disable_all,
  handle_event,
}
use thread_library.Net.Channel

pub data ConnectStatus : Type 0 where
  disconnected connecting connected : ConnectStatus

-- The errors of connect(2) that `Connect` tells apart.
pub data ConnectError : Type 0 where
  no_error einprogress eintr eisconn : ConnectError
  eagain eaddrinuse econnrefused enetunreach : ConnectError
  eacces eperm eafnosupport ealready ebadf efault enotsock other : ConnectError

-- A new socket: whether socket(2) opens it, its descriptor, and the value of SO_ERROR after connect(2), if getsockopt gives it.
pub record Attempt : Type 0 where
  pub opened : Bool
  pub fd : ℕ
  pub answer : Option ConnectError

pub data Task : Type 0 where
  start_task stop_task reset_task : Task

pub data Effect : Type 0 where
  poll_update : ℕ → Effect
  poll_remove : Effect
  closed : ℕ → Effect
  called_new_connection : ℕ → Effect

pub record Connector : Type 0 where
  pub loop : ℕ
  pub connect : Bool
  pub status : ConnectStatus
  pub channel : Option Channel
  pub retry_delay_ms : ℕ
  pub tasks : List Task
  pub trace : List Effect

unfoldable pub create : ℕ → Connector
create loop = record {
  loop = loop;
  connect = false;
  status = disconnected;
  channel = none;
  retry_delay_ms = 1000;
  tasks = [];
  trace = [];
}

abbrev pub emit : Effect → Connector → Connector
emit e c = record c { trace = c.trace ++ e ∷ [] }

abbrev pub queue : Task → Connector → Connector
queue t c = record c { tasks = c.tasks ++ t ∷ [] }

unfoldable pub set_state : ConnectStatus → Connector → Connector
set_state s c = record c { status = s }

unfoldable pub retry : ℕ → Connector → Connector
unfolding set_state
retry fd c =
    let d = set_state disconnected (emit (closed fd) c) in
    if d.connect then queue start_task d else d

-- A new channel with write and error callback that waits for the socket to be writable.
unfoldable pub connecting_channel : ℕ → ℕ → Channel
unfolding Channel.create enable_writing
connecting_channel loop fd = enable_writing true (record (Channel.create loop fd) {
  callbacks = record { has_read = false; has_write = true; has_close = false; has_error = true };
})

unfoldable pub begin_connecting : ℕ → Connector → Connector
unfolding set_state
begin_connecting fd c =
    let k = connecting_channel c.loop fd in
    emit (poll_update k.interested) (record (set_state connecting c) { channel = some k })

-- The switch of `Connect`.
unfoldable pub by_error : ConnectError → ℕ → Connector → Connector
unfolding begin_connecting retry
by_error no_error fd c = begin_connecting fd c
by_error einprogress fd c = begin_connecting fd c
by_error eintr fd c = begin_connecting fd c
by_error eisconn fd c = begin_connecting fd c
by_error eagain fd c = retry fd c
by_error eaddrinuse fd c = retry fd c
by_error econnrefused fd c = retry fd c
by_error enetunreach fd c = retry fd c
by_error _ fd c = emit (closed fd) c

-- `Connect`. The socket's constructor aborts where socket(2) fails. Where getsockopt fails, the socket is
-- closed and the error code is still 0.
unfoldable pub try_connect : Attempt → Connector → Outcome Connector
unfolding by_error
try_connect a c =
    let tried : Connector = elim a.answer [
      | none ↦ by_error no_error a.fd (emit (closed a.fd) c)
      | some e ↦ by_error e a.fd c
    ] in
    if a.opened then ok tried else fatal

abbrev pub is_disconnected : ConnectStatus → Bool
is_disconnected disconnected = true
is_disconnected _ = false

abbrev is_connecting : ConnectStatus → Bool
is_connecting connecting = true
is_connecting _ = false

unfoldable pub start_in_loop : Bool → Attempt → Connector → Outcome Connector
unfolding try_connect
start_in_loop in_loop a c =
    if in_loop
    then if is_disconnected c.status then if c.connect then try_connect a c else ok c else fatal
    else fatal

-- `Start`: `RunInLoop` runs the task at once in the loop's thread.
unfoldable pub start : Bool → Attempt → Connector → Outcome Connector
unfolding start_in_loop
start in_loop a c =
    let d : Connector = record c { connect = true } in
    if in_loop then start_in_loop true a d else ok (queue start_task d)

unfoldable pub restart : Bool → Attempt → Connector → Outcome Connector
unfolding start_in_loop set_state
restart in_loop a c =
    if in_loop
    then start_in_loop true a
        (record (set_state disconnected c) { retry_delay_ms = 1000; connect = true })
    else fatal

-- The channel is disabled and removed from the poller, and a task will delete it.
unfoldable pub detach : Channel → Connector → Connector
unfolding disable_all
detach k c =
    let d = disable_all k in
    queue reset_task
      (emit poll_remove (emit (poll_update d.interested) (record c { channel = some d })))

-- The channel is dereferenced without a test.
unfoldable pub remove_and_reset_channel : Connector → Outcome (ℕ × Connector)
unfolding detach
remove_and_reset_channel c = elim c.channel [ none ↦ fault | some k ↦ ok (k.fd, detach k c) ]

unfoldable pub reset_channel : Connector → Connector
reset_channel c = record c { channel = none }

unfoldable pub stop : Connector → Connector
stop c = queue stop_task (record c { connect = false })

unfoldable pub stop_in_loop : Bool → Connector → Outcome Connector
unfolding remove_and_reset_channel retry set_state
stop_in_loop in_loop c =
    if in_loop
    then if is_connecting c.status
      then remove_and_reset_channel (set_state disconnected c) >>= (λ r. ok (retry r.0 r.1))
      else ok c
    else fatal

-- The socket is connected: it is handed over, or closed after `Stop`.
unfoldable pub succeed : ℕ → Connector → Connector
unfolding set_state
succeed fd c =
    let d = set_state connected c in
    if d.connect then emit (called_new_connection fd) d else emit (closed fd) d

-- `failed` says whether SO_ERROR is an error.
unfoldable pub handle_write : Bool → Connector → Outcome Connector
unfolding remove_and_reset_channel retry succeed
handle_write failed c =
    if is_connecting c.status
    then remove_and_reset_channel c
      >>= (λ r. ok (if failed then retry r.0 r.1 else succeed r.0 r.1))
    else fatal

unfoldable pub handle_error : Connector → Outcome Connector
unfolding remove_and_reset_channel retry
handle_error c =
    if is_connecting c.status
    then remove_and_reset_channel c >>= (λ r. ok (retry r.0 r.1))
    else ok c

unfoldable pub run_callback : Bool → Callback → Connector → Outcome Connector
unfolding handle_write handle_error
run_callback failed on_write c = handle_write failed c
run_callback failed on_error c = handle_error c
run_callback failed _ c = ok c

unfoldable pub run_callbacks : Bool → List Callback → Connector → Outcome Connector
unfolding run_callback
run_callbacks failed [] c = ok c
run_callbacks failed (k ∷ ks) c = run_callback failed k c >>= λ d. run_callbacks failed ks d

-- What the loop does when poll(2) reports `events` for the channel.
unfoldable pub dispatch : Bool → ℕ → Channel → Connector → Outcome Connector
unfolding run_callbacks handle_event
dispatch failed events k c = run_callbacks failed (handle_event (record k { current = events })) c

unfoldable pub run_task : Attempt → Task → Connector → Outcome Connector
unfolding start_in_loop stop_in_loop reset_channel
run_task a start_task c = start_in_loop true a c
run_task a stop_task c = stop_in_loop true c
run_task a reset_task c = ok (reset_channel c)
