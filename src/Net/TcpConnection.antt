-- ===== src/Net/TcpConnection.antt =====
-- framework/net/include/TcpConnection.hpp and framework/net/src/TcpConnection.cpp. What a call does
-- outside the connection (socket, poller, callbacks) is recorded in `trace`, in order; what write(2)
-- and readv(2) answer, and whether the caller is the loop's thread, are arguments.
pub mod Close
pub mod Lifecycle
pub mod Stream
pub mod Send
pub mod Write
pub mod Delivery
mod Tests
use thread_library.Prelude.{
  ℕ, ◌+◌, ◌-◌, ◌*◌, Bool, true, false, not, ◌&&◌, ◌||◌, List, [], ◌∷◌, ◌++◌, Option, none, some,
  length, take, drop, ltb, leb, ◌==◌, if◌then◌else◌,
}
use thread_library.Prelude.Outcome.{Outcome, ok, fatal, ◌>>=◌}
use thread_library.Net.Buffer.{
  Buffer, readable_bytes, retrieve, append, retrieve_all, retrieve_all_as_string, ReadResult,
}
use thread_library.Net.Buffer
use thread_library.Net.Buffer.Integers.{read_fd}
use thread_library.Net.Channel.{Channel, enable_reading, enable_writing, disable_all, is_writing}
use thread_library.Net.Channel

pub data ConnectStatus : Type 0 where
  disconnecting disconnected connecting connected : ConnectStatus

abbrev pub same_status : ConnectStatus → ConnectStatus → Bool
same_status disconnecting disconnecting = true
same_status disconnected disconnected = true
same_status connecting connecting = true
same_status connected connected = true
same_status _ _ = false

pub data Effect : Type 0 where
  -- the bytes that write(2) took
  sent : List ℕ → Effect
  shut_down_write : Effect
  -- `UpdateChannel` with this interest, and `RemoveChannel`
  poll_update : ℕ → Effect
  poll_remove : Effect
  called_connection called_message called_write_complete called_close : Effect
  called_high_water : ℕ → Effect
  -- a member function handed to the loop's thread
  queued_shutdown queued_force_close : Effect
  queued_send : List ℕ → Effect

-- Which of the callbacks are set.
pub record Handlers : Type 0 where
  pub has_connection : Bool
  pub has_message : Bool
  pub has_write_complete : Bool
  pub has_high_water : Bool
  pub has_close : Bool

pub record Connection : Type 0 where
  pub status : ConnectStatus
  pub highwater_mark : ℕ
  pub channel : Channel
  pub handlers : Handlers
  pub input : Buffer
  pub output : Buffer
  pub trace : List Effect

-- What write(2) answers: a count, or an error that is EAGAIN or another.
pub data WriteResult : Type 0 where
  wrote : ℕ → WriteResult
  again broken : WriteResult

unfoldable pub create : ℕ → ℕ → Connection
create loop fd = record {
  status = connecting;
  highwater_mark = 64 * 1024 * 1024;
  channel = record (Channel.create loop fd) {
    callbacks = record { has_read = true; has_write = true; has_close = true; has_error = true };
  };
  handlers = record {
    has_connection = true;
    has_message = true;
    has_write_complete = false;
    has_high_water = false;
    has_close = false;
  };
  input = Buffer.create 1024;
  output = Buffer.create 1024;
  trace = [];
}

abbrev pub emit : Effect → Connection → Connection
emit e c = record c { trace = c.trace ++ e ∷ [] }

abbrev pub emit_if : Bool → Effect → Connection → Connection
emit_if b e c = if b then emit e c else c

-- A switch of the channel, which ends in `UpdatePollList`.
abbrev pub switch : Channel → Connection → Connection
switch k c = emit (poll_update k.interested) (record c { channel = k })

unfoldable pub set_connection_callback : Connection → Connection
set_connection_callback c = record c { handlers = record c.handlers { has_connection = true } }

unfoldable pub set_message_callback : Connection → Connection
set_message_callback c = record c { handlers = record c.handlers { has_message = true } }

unfoldable pub set_write_complete_callback : Connection → Connection
set_write_complete_callback c = record c {
  handlers = record c.handlers { has_write_complete = true };
}

unfoldable pub set_close_callback : Connection → Connection
set_close_callback c = record c { handlers = record c.handlers { has_close = true } }

unfoldable set_high_water_mark_callback : ℕ → Connection → Connection
set_high_water_mark_callback mark c = record c {
  handlers = record c.handlers { has_high_water = true };
  highwater_mark = mark;
}

unfoldable status_to_string : ConnectStatus → List ℕ
status_to_string disconnected =
    b'D' ∷ b'i' ∷ b's' ∷ b'c' ∷ b'o' ∷ b'n' ∷ b'n' ∷ b'e' ∷ b'c' ∷ b't' ∷ b'e' ∷ b'd' ∷ []
status_to_string disconnecting =
    b'D' ∷ b'i' ∷ b's' ∷ b'C' ∷ b'o' ∷ b'n' ∷ b'n' ∷ b'e' ∷ b'c' ∷ b't' ∷ b'i' ∷ b'n' ∷ b'g' ∷ []
status_to_string connected = b'C' ∷ b'o' ∷ b'n' ∷ b'n' ∷ b'e' ∷ b'c' ∷ b't' ∷ b'e' ∷ b'd' ∷ []
status_to_string connecting =
    b'D' ∷ b'i' ∷ b's' ∷ b'c' ∷ b'o' ∷ b'n' ∷ b'n' ∷ b'e' ∷ b'c' ∷ b't' ∷ b'i' ∷ b'n' ∷ b'g' ∷ []

unfoldable pub is_connected : Connection → Bool
is_connected c = same_status c.status connected

unfoldable pub is_disconnected : Connection → Bool
is_disconnected c = same_status c.status disconnected

-- What `SendInLoop` knows when its first part is done.
pub record Attempt : Type 0 where
  pub conn : Connection
  pub writed : ℕ
  pub remaining : ℕ
  pub fault_error : Bool

-- The direct write. The count that remains is only set where write(2) succeeds.
unfoldable pub try_write : WriteResult → List ℕ → Connection → Attempt
try_write (wrote n) message c = record {
  conn =
      emit_if (length message - n == 0 && c.handlers.has_write_complete) called_write_complete
        (emit (sent (take n message)) c);
  writed = n;
  remaining = length message - n;
  fault_error = false;
}
try_write again message c = record { conn = c; writed = 0; remaining = 0; fault_error = false }
try_write broken message c = record { conn = c; writed = 0; remaining = 0; fault_error = true }

unfoldable pub first_write : WriteResult → List ℕ → Connection → Attempt
unfolding try_write
first_write w message c =
    if not (is_writing c.channel) && (readable_bytes c.output == 0)
    then try_write w message c
    else record { conn = c; writed = 0; remaining = 0; fault_error = false }

-- What is left goes to the output buffer, and the channel waits for room.
unfoldable pub hold_rest : List ℕ → Connection → Outcome Connection
hold_rest rest c = append c.output rest >>= λ output.
    let d : Connection = record c { output = output } in
    ok (if is_writing d.channel then d else switch (enable_writing true d.channel) d)

unfoldable pub keep_rest : List ℕ → Attempt → Outcome Connection
unfolding hold_rest
keep_rest message a =
    let total = readable_bytes a.conn.output + a.remaining in
    hold_rest (take a.remaining (drop a.writed message)) (
      emit_if (leb a.conn.highwater_mark total && a.conn.handlers.has_high_water)
        (called_high_water total) a.conn)

unfoldable pub send_in_loop : Bool → WriteResult → List ℕ → Connection → Outcome Connection
unfolding first_write keep_rest
send_in_loop in_loop w message c =
    let a = first_write w message c in
    if not in_loop
    then fatal
    else if same_status c.status disconnected
    then ok c
    else if not a.fault_error && ltb 0 a.remaining
    then keep_rest message a
    else ok a.conn

-- `Send(Buffer*)`: the caller's buffer is emptied on both paths.
unfoldable pub send_buffer :
    Bool → WriteResult → Connection → Buffer → Outcome (Connection × Buffer)
unfolding send_in_loop
send_buffer in_loop w c message =
    let (emptied, bytes) = retrieve_all_as_string message in
    let direct = send_in_loop true w bytes c >>= λ d. ok (d, retrieve_all message) in
    if not (same_status c.status connected)
    then ok (c, message)
    else if in_loop
    then direct
    else ok (emit (queued_send bytes) c, emptied)

-- `Send(const char*, int)`.
unfoldable pub send : Bool → WriteResult → List ℕ → Connection → Outcome Connection
unfolding send_buffer
send in_loop w message c =
    append (Buffer.create 1024) message >>= λ local. send_buffer in_loop w c local >>= λ r. ok r.0

unfoldable pub shutdown_in_loop : Bool → Connection → Outcome Connection
shutdown_in_loop in_loop c =
    if not in_loop
    then fatal
    else if not (is_writing c.channel)
    then ok (emit shut_down_write c)
    else ok c

unfoldable pub shutdown : Bool → Connection → Outcome Connection
unfolding shutdown_in_loop
shutdown in_loop c =
    let d : Connection = record c { status = disconnecting } in
    if not (same_status c.status connected)
    then ok c
    else if in_loop
    then shutdown_in_loop true d
    else ok (emit queued_shutdown d)

unfoldable pub connect_established : Bool → Connection → Outcome Connection
connect_established in_loop c =
    if not in_loop
    then fatal
    else if not (same_status c.status connecting)
    then fatal
    else ok (
        emit called_connection
          (switch (enable_reading true c.channel) (record c { status = connected })))

-- The part of `ConnectDestroyed` for a connection that is up.
abbrev pub take_down : Connection → Connection
take_down c =
    if same_status c.status connected
    then emit_if c.handlers.has_connection called_connection
        (switch (disable_all c.channel) (record c { status = disconnected }))
    else c

unfoldable pub connect_destroyed : Bool → Connection → Outcome Connection
connect_destroyed in_loop c =
    if not in_loop
    then fatal
    else (let d = take_down c in
        ok (emit poll_remove (record d { channel = record d.channel { added_to_loop = false } })))

unfoldable pub handle_close : Bool → Connection → Outcome Connection
unfolding connect_destroyed
handle_close in_loop c = connect_destroyed in_loop c >>= λ d. ok (
    emit_if d.handlers.has_close called_close (
      emit_if d.handlers.has_connection called_connection
        (switch (disable_all d.channel) (record d { status = disconnected }))))

abbrev is_open : Connection → Bool
is_open c = same_status c.status connected || same_status c.status disconnecting

unfoldable pub force_close_in_loop : Bool → Connection → Outcome Connection
unfolding handle_close
force_close_in_loop in_loop c =
    let closed = handle_close true c in
    if not in_loop then fatal else if is_open c then closed else ok c

unfoldable pub force_close : Bool → Connection → Outcome Connection
unfolding force_close_in_loop
force_close in_loop c =
    let d : Connection = record c { status = disconnecting } in
    let closed = force_close_in_loop true d in
    if not (is_open c) then ok c else if in_loop then closed else ok (emit queued_force_close d)

-- The answer of `ReadFd` decides: a message, the end of the stream, or an error that is only logged.
unfoldable pub after_read : Connection → Option ℕ → Outcome Connection
unfolding handle_close
after_read c none = ok c
after_read c (some n) =
    let closed = handle_close true c in
    if ltb 0 n then ok (emit_if c.handlers.has_message called_message c) else closed

unfoldable pub handle_read : Bool → ReadResult → Connection → Outcome Connection
unfolding after_read
handle_read in_loop r c =
    let received = read_fd c.input r >>= λ s. after_read (record c { input = s.1 }) s.0 in
    if not in_loop then fatal else received

-- The output buffer is empty: no more writing, and the shutdown that may wait for it.
unfoldable pub drained : Connection → Outcome Connection
unfolding shutdown_in_loop
drained c =
    let d =
      emit_if c.handlers.has_write_complete called_write_complete
        (switch (enable_writing false c.channel) c) in
    if same_status d.status disconnecting then shutdown_in_loop true d else ok d

unfoldable pub write_some : ℕ → Connection → Outcome Connection
unfolding drained
write_some n c =
    let d : Connection = record (emit (sent (take n bytes)) c) { output = retrieve c.output n } in
    let quiet = drained d in if readable_bytes d.output == 0 then quiet else ok d
  where
    bytes : List ℕ
    bytes = (retrieve_all_as_string c.output).1

unfoldable pub write_result : WriteResult → Connection → Outcome Connection
unfolding write_some
write_result (wrote n) c = if ltb 0 n then write_some n c else ok c
write_result again c = ok c
write_result broken c = ok c

unfoldable pub handle_write : Bool → WriteResult → Connection → Outcome Connection
unfolding write_result
handle_write in_loop w c =
    let written = write_result w c in
    if not in_loop then fatal else if is_writing c.channel then written else ok c
