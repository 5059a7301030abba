-- ===== src/Net/TcpConnection/Lifecycle.antt =====
-- The life of a connection: what each member function, and each handler, may do to its status.
use thread_library.Prelude.{
  ℕ, ◌≤◌, ◌≡◌, refl, sym, ap, ◌∙◌, Bool, true, false, List, take, Option, none, some, arith,
  Bool-cases, inl, inr, ◌⊎◌, if◌then◌else◌,
}
use thread_library.Prelude.Outcome.{Outcome, ok, ◌>>=◌, >>=-eq-ok}
use thread_library.Net.Buffer.{
  Buffer, ReadResult, append, retrieve, retrieve_all, retrieve_all_as_string,
}
use thread_library.Net.Buffer.Integers.{read_fd}
use thread_library.Net.Channel.{enable_writing}
use thread_library.Net.TcpConnection.{
  ConnectStatus, disconnecting, disconnected, connecting, connected, same_status, Connection,
  WriteResult, wrote, again, broken, emit, emit_if, switch, sent, called_write_complete,
  queued_send, Attempt, try_write, first_write, hold_rest, keep_rest, send_in_loop, send_buffer,
  send, shutdown_in_loop, shutdown, connect_established, connect_destroyed, handle_close,
  force_close_in_loop, force_close, after_read, handle_read, drained, write_some, write_result,
  handle_write,
}

-- The order in which a connection passes through its statuses.
pub rank : ConnectStatus → ℕ
rank connecting = 0
rank connected = 1
rank disconnecting = 2
rank disconnected = 3

pub data Event : Type 0 where
  sends : WriteResult → List ℕ → Event
  sends_in_loop : WriteResult → List ℕ → Event
  shuts_down shuts_down_in_loop forces_close forces_close_in_loop : Event
  establishes destroys closes : Event
  reads : ReadResult → Event
  writes : WriteResult → Event

-- An event, in the loop's thread or in another one.
unfoldable pub step : Bool → Event → Connection → Outcome Connection
step l (sends w m) c = send l w m c
step l (sends_in_loop w m) c = send_in_loop l w m c
step l shuts_down c = shutdown l c
step l shuts_down_in_loop c = shutdown_in_loop l c
step l forces_close c = force_close l c
step l forces_close_in_loop c = force_close_in_loop l c
step l establishes c = connect_established l c
step l destroys c = connect_destroyed l c
step l closes c = handle_close l c
step l (reads r) c = handle_read l r c
step l (writes w) c = handle_write l w c

emit_if-status : (b : Bool) (e : _) (c : Connection) → (emit_if b e c).status ≡ c.status
emit_if-status true e c = refl
emit_if-status false e c = refl

hold_rest-status :
    (rest : List ℕ) (c d : Connection) → hold_rest rest c ≡ ok d → d.status ≡ c.status
unfolding hold_rest
hold_rest-status rest c d e = let (b, _, f) = >>=-eq-ok (append c.output rest) _ e in ground arith

keep_rest-status :
    (m : List ℕ) (a : Attempt) (d : Connection) → keep_rest m a ≡ ok d → d.status ≡ a.conn.status
unfolding keep_rest
keep_rest-status m a d e = hold_rest-status _ _ d e ∙ emit_if-status _ _ a.conn

first_write-status :
    (w : WriteResult) (m : List ℕ) (c : Connection) → (first_write w m c).conn.status ≡ c.status
unfolding first_write try_write
first_write-status (wrote n) m c = ground arith
first_write-status again m c = ground arith
first_write-status broken m c = ground arith

send_in_loop-status :
    (l : Bool) (w : WriteResult) (m : List ℕ) (c d : Connection)
    → send_in_loop l w m c ≡ ok d
    → d.status ≡ c.status
unfolding send_in_loop
send_in_loop-status l w m c d e =
    ground (arith, keep_rest-status m (first_write w m c) d, first_write-status w m c)

status_of : Outcome (Connection × Buffer) → ConnectStatus
status_of (ok r) = r.0.status
status_of _ = connecting

send_buffer-status :
    (l : Bool) (w : WriteResult) (c d : Connection) (b s : Buffer)
    → send_buffer l w c b ≡ ok (d, s)
    → d.status ≡ c.status
unfolding send_buffer status_of
send_buffer-status l w c d b s e = elim (Bool-cases (same_status c.status connected)) [
  | inr down ↦ (let f = rw down at e in ground arith)
  | inl up ↦ elim_loop l (rw up at e)
]
  where
    message : List ℕ
    message = (retrieve_all_as_string b).1

    elim_loop :
        (k : Bool)
        → (if k
            then ◌>>=◌ {B = Connection × Buffer}
                (send_in_loop true w message c)
                (λ x. ok (x, retrieve_all b))
            else (ok (emit (queued_send message) c, (retrieve_all_as_string b).0)))
          ≡ ok (d, s)
        → d.status ≡ c.status
    elim_loop true f =
        let (x, g, h) = >>=-eq-ok (send_in_loop true w message c) _ f in
        sym (ap status_of h) ∙ send_in_loop-status true w message c x g
    elim_loop false f = sym (ap status_of f)

send-status :
    (l : Bool) (w : WriteResult) (m : List ℕ) (c d : Connection)
    → send l w m c ≡ ok d
    → d.status ≡ c.status
unfolding send
send-status l w m c d e =
    let (b, _, f) = >>=-eq-ok (append _ m) _ e in
    let (r, g, h) = >>=-eq-ok (send_buffer l w c b) _ f in
    ground (arith, send_buffer-status l w c r.0 b r.1, g, h)

shutdown_in_loop-status :
    (l : Bool) (c d : Connection) → shutdown_in_loop l c ≡ ok d → d.status ≡ c.status
unfolding shutdown_in_loop
shutdown_in_loop-status l c d e = ground arith

drained-status : (c d : Connection) → drained c ≡ ok d → d.status ≡ c.status
unfolding drained
drained-status c d e =
    let flag = c.handlers.has_write_complete in
    ground (
      arith,
      shutdown_in_loop-status true
          (emit_if flag called_write_complete (switch (enable_writing false c.channel) c)) d,
    )

write_result-status :
    (w : WriteResult) (c d : Connection) → write_result w c ≡ ok d → d.status ≡ c.status
unfolding write_result write_some
write_result-status (wrote n) c d e = ground (
  arith,
  drained-status
      (record (emit (sent (take n (retrieve_all_as_string c.output).1)) c) {
        output = retrieve c.output n;
      })
      d,
)
write_result-status again c d e = ground arith
write_result-status broken c d e = ground arith

-- Every end of a connection leaves it DISCONNECTED.
handle_close-status :
    (l : Bool) (c d : Connection) → handle_close l c ≡ ok d → d.status ≡ disconnected
unfolding handle_close
handle_close-status l c d e = let (x, _, f) = >>=-eq-ok (connect_destroyed l c) _ e in ground arith

after_read-status :
    (c : Connection) (n : Option ℕ) (d : Connection)
    → after_read c n ≡ ok d
    → (d.status ≡ c.status) ⊎ (d.status ≡ disconnected)
unfolding after_read
after_read-status c none d e = inl (ground arith)
after_read-status c (some n) d e = ground (arith, handle_close-status true c d)

handle_read-status :
    (l : Bool) (r : ReadResult) (c d : Connection)
    → handle_read l r c ≡ ok d
    → (d.status ≡ c.status) ⊎ (d.status ≡ disconnected)
unfolding handle_read
handle_read-status false r c d e = cc
handle_read-status true r c d e =
    let (x, _, f) = >>=-eq-ok (read_fd c.input r) _ e in
    after_read-status (record c { input = x.1 }) x.0 d f

force_close_in_loop-status :
    (l : Bool) (c d : Connection)
    → force_close_in_loop l c ≡ ok d
    → (d.status ≡ c.status) ⊎ (d.status ≡ disconnected)
unfolding force_close_in_loop
force_close_in_loop-status l c d e = ground (arith, handle_close-status true c d)

rank-le : (s : ConnectStatus) → rank s ≤ rank disconnected
unfolding rank
rank-le s = ground arith

-- A step that returns takes the connection forward, never back: from CONNECTING over CONNECTED and
-- DISCONNECTING to DISCONNECTED.
pub rank-step :
    (l : Bool) (ev : Event) (c d : Connection) → step l ev c ≡ ok d → rank c.status ≤ rank d.status
unfolding step rank
rank-step l (sends w m) c d e = ground (arith, send-status l w m c d e)
rank-step l (sends_in_loop w m) c d e = ground (arith, send_in_loop-status l w m c d e)
rank-step l shuts_down c d e =
    unfold shutdown in
    ground (arith, shutdown_in_loop-status true (record c { status = disconnecting }) d)
rank-step l shuts_down_in_loop c d e = ground (arith, shutdown_in_loop-status l c d e)
rank-step l forces_close c d e =
    unfold force_close in
    ground (arith, force_close_in_loop-status true (record c { status = disconnecting }) d)
rank-step l forces_close_in_loop c d e = ground (arith, force_close_in_loop-status l c d e)
rank-step l establishes c d e = unfold connect_established in ground arith
rank-step l destroys c d e = unfold connect_destroyed in ground arith
rank-step l closes c d e = ground (arith, handle_close-status l c d e)
rank-step l (reads r) c d e = ground (arith, handle_read-status l r c d e)
rank-step l (writes w) c d e = unfold handle_write in ground (arith, write_result-status w c d)

-- A run of steps in which none aborts.
pub data Run (c : Connection) : Connection → Type 0 where
  here : Run c c
  next :
      {d : Connection} (l : Bool) (ev : Event) (e : Connection)
      → Run c d
      → step l ev d ≡ ok e
      → Run c e

-- A connection that is DISCONNECTED stays so, whatever is called on it afterwards.
disconnected_final :
    {c d : Connection} → Run c d → c.status ≡ disconnected → d.status ≡ disconnected
disconnected_final here h = h
disconnected_final (next {d} l ev e r s) h =
    last d.status e.status (disconnected_final r h) (rank-step l ev d e s)
  where
    last : (s t : ConnectStatus) → s ≡ disconnected → rank s ≤ rank t → t ≡ disconnected
    last s t p q = unfold rank in ground arith
