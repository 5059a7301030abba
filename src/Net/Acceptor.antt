-- ===== src/Net/Acceptor.antt =====
-- framework/net/include/Acceptor.hpp and framework/net/src/Acceptor.cpp. What accept(2) and open(2)
-- answer is an argument; what becomes of a descriptor is recorded in `trace`, in order.
pub mod Descriptors
mod Tests
use thread_library.Prelude.{
  ℕ, Bool, true, false, not, List, [], ◌∷◌, ◌++◌, Option, none, some, if◌then◌else◌,
}
use thread_library.Prelude.Outcome.{Outcome, ok, fatal, ◌>>=◌}
use thread_library.Net.Channel.{Channel, enable_reading}
use thread_library.Net.Channel

pub data Effect : Type 0 where
  closed handed_over : ℕ → Effect
  listened : Effect
  poll_update : ℕ → Effect

pub record Acceptor : Type 0 where
  pub channel : Channel
  -- the descriptor of /dev/null, if open(2) gave one
  pub idle_fd : Option ℕ
  pub has_callback : Bool
  pub trace : List Effect

-- What accept(2) answers: a descriptor, EMFILE, another error that `Accept` reports (EAGAIN, ECONNABORTED,
-- EINTR, EPERM), or one for which it aborts. After EMFILE and the close of the idle descriptor accept(2) is
-- asked again, and then open(2) may give a new idle descriptor.
pub data AcceptResult : Type 0 where
  accepted : ℕ → AcceptResult
  exhausted : Option ℕ → Option ℕ → AcceptResult
  failed broken : AcceptResult

abbrev pub emit : Effect → Acceptor → Acceptor
emit e a = record a { trace = a.trace ++ e ∷ [] }

-- `create loop fd idle`: the socket's descriptor, and that of /dev/null, which open(2) gave.
unfoldable pub create : ℕ → ℕ → ℕ → Acceptor
create loop fd idle = record {
  channel = Channel.create loop fd;
  idle_fd = some idle;
  has_callback = false;
  trace = [];
}

unfoldable pub set_new_connection_callback : Acceptor → Acceptor
set_new_connection_callback a = record a { has_callback = true }

unfoldable pub start : Bool → Acceptor → Outcome Acceptor
unfolding enable_reading
start in_loop a =
    let k : Channel = record a.channel {
      callbacks = record {
        has_read = true;
        has_write = false;
        has_close = false;
        has_error = false;
      };
    } in
    let d = enable_reading true k in
    if in_loop
    then ok (emit (poll_update d.interested) (emit listened (record a { channel = d })))
    else fatal

-- A close of what is no descriptor does nothing.
abbrev pub close_if : Option ℕ → Acceptor → Acceptor
close_if none a = a
close_if (some fd) a = emit (closed fd) a

unfoldable pub by_result : AcceptResult → Acceptor → Outcome Acceptor
by_result (accepted fd) a = ok (emit (if a.has_callback then handed_over fd else closed fd) a)
by_result (exhausted second idle) a =
    ok (record (close_if second (close_if a.idle_fd a)) { idle_fd = idle })
by_result failed a = ok a
by_result broken a = fatal

unfoldable pub handle_read : Bool → AcceptResult → Acceptor → Outcome Acceptor
unfolding by_result
handle_read in_loop r a = let b = by_result r a in if not in_loop then fatal else b

-- A row of reports of the listening socket, in the loop's thread.
unfoldable pub handle_reads : List AcceptResult → Acceptor → Outcome Acceptor
unfolding handle_read
handle_reads [] a = ok a
handle_reads (r ∷ rs) a = handle_read true r a >>= handle_reads rs
