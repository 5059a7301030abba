-- ===== src/Net/TcpConnection/Tests.antt =====
-- The theorems about TcpConnection.cpp at small connections.
use thread_library.Prelude.{
  ℕ, drop, ◌+◌, ◌≤◌, ◌≡◌, refl, inr, [], ◌∷◌, ◌++◌, arith, ltb, true, false,
}
use thread_library.Prelude.Outcome.{Outcome, ok, Returns, ◌>>=◌}
use thread_library.Net.Buffer.{Buffer}
use thread_library.Net.Channel
use thread_library.Net.Channel.{Channel}
use thread_library.Net.Poller.{Poller, update_channel}
use thread_library.Net.Poller
use thread_library.Net.TcpConnection
use thread_library.Net.TcpConnection.{
  Connection, connected, disconnected, wrote, again, send_in_loop, handle_close, handle_write,
}
use thread_library.Net.TcpConnection.Stream.{Streams, stream}
use thread_library.Net.TcpConnection.Send.{send_idle, send_pending}
use thread_library.Net.Buffer.Contents.{contents}
use thread_library.Net.TcpConnection.Delivery.{Left, write_all, write_all-Delivers}
use thread_library.Net.TcpConnection.Close.{on_poller}
use thread_library.Net.TcpConnection.Lifecycle.{rank, step, shuts_down, rank-step}

-- A connection that is up, with an empty output buffer of sixteen bytes.
abbrev buffer : Buffer
buffer = record {
  bytes = 0 ∷ 0 ∷ 0 ∷ 0 ∷ 0 ∷ 0 ∷ 0 ∷ 0 ∷ 1 ∷ 2 ∷ 3 ∷ 0 ∷ 0 ∷ 0 ∷ 0 ∷ 0 ∷ [];
  reader = 8;
  writer = 8;
}

abbrev up : Connection
up = record (TcpConnection.create 1 7) {
  status = connected;
  channel = record (Channel.create 1 7) { interested = 3 };
  output = buffer;
  handlers = record {
    has_connection = true;
    has_message = true;
    has_write_complete = true;
    has_high_water = false;
    has_close = true;
  };
}

-- The same with three bytes pending.
abbrev busy : Connection
busy = record up {
  channel = record (Channel.create 1 7) { interested = 7 };
  output = record buffer { writer = 11 };
}

send_idle_example :
    Returns
      (send_in_loop true (wrote 2) (5 ∷ 6 ∷ 7 ∷ []) up)
      (Streams (stream up ++ (5 ∷ 6 ∷ 7 ∷ [])) (ltb 2 3))
send_idle_example =
    send_idle up 2 (5 ∷ 6 ∷ 7 ∷ []) true (omega arith) refl refl refl (omega arith) (omega arith)

send_pending_example : send_in_loop true (wrote 2) (5 ∷ 6 ∷ 7 ∷ []) busy ≡ ok busy
send_pending_example = send_pending busy 2 (5 ∷ 6 ∷ 7 ∷ []) (omega arith) (inr (omega arith))

-- The socket takes one byte, and then the other two.
write_all-Delivers_example :
    Returns (write_all (1 ∷ 2 ∷ []) busy) (Left (stream busy) (drop 3 (contents busy.output)) true)
write_all-Delivers_example =
    write_all-Delivers busy (1 ∷ 2 ∷ []) true (omega arith) refl
      (omega arith, omega arith, (omega arith, omega arith, tt))

closed : Connection
closed = record up { status = disconnected }

shut : step true shuts_down closed ≡ ok closed
unfolding step closed TcpConnection.shutdown
shut = refl

rank-step_example : rank closed.status ≤ rank closed.status
rank-step_example = rank-step true shuts_down closed closed shut

-- A poller that watches the descriptors 10 and 11 of two channels.
abbrev channels : ℕ → Channel
channels p = record (Channel.create 1 (p + 10)) { interested = 3 }

abbrev value : Outcome Poller → Poller → Poller
value (ok w) d = w
value _ d = d

abbrev one : Poller
one = value (update_channel 0 (Poller.create channels)) (Poller.create channels)

abbrev two : Poller
two = value (update_channel 1 one) one

-- After the first channel is closed the entry of the second one is overwritten.
abbrev spoilt : Poller
spoilt = value (handle_close true up >>= λ d. on_poller 0 d.trace two) two
