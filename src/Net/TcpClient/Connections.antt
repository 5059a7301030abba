-- ===== src/Net/TcpClient/Connections.antt =====
-- How the connections of a client begin and end.
use thread_library.Prelude.{
  ℕ, ◌+◌, ◌≡◌, refl, ap, arith, [], ◌∷◌, ◌++◌, Bool, true, false, List, some, Bool-cases, inl, inr,
  ◌∙◌, if◌then◌else◌,
}
use thread_library.Prelude.Outcome.{Outcome, ok, fatal, thrown, fault, Returns, ◌>>=◌}
use thread_library.Net.Connector.{restart}
use thread_library.Net.Connector
use thread_library.Net.TcpConnection.{
  Connection, connected, connect_established, is_connected, handle_close, connect_destroyed,
  take_down, emit_if, same_status, called_connection, called_close, Effect,
}
use thread_library.Net.TcpConnection
use thread_library.Net.TcpClient.{
  TcpClient, connection_name, new_tcp_connection, new_connection, remove_connection,
  close_connection, is_close, calls_close,
}

-- The client after a new connection: it holds it, up and with the close callback, under a name with the
-- number that no earlier one has.
pub record HasNew (name : List ℕ) (before : TcpClient) (after : TcpClient) : Type 0 where
  pub held :
      (t : Connection) × (after.connection ≡ some (name, t))
      × (t.status ≡ connected)
      × (t.handlers.has_close ≡ true)
  pub counted : after.next_connect_id ≡ before.next_connect_id + 1
  pub connector : after.connector ≡ before.connector

-- NewConnection in the loop's thread returns with the connection up, and in another thread aborts.
new_connection-HasNew :
    (print : ℕ → List ℕ) (peer : List ℕ) (fd : ℕ) (c : TcpClient)
    → Returns (new_connection print peer true fd c) (HasNew (connection_name print peer c) c)
      × (new_connection print peer false fd c ≡ fatal)
unfolding new_connection new_tcp_connection connect_established TcpConnection.create
new_connection-HasNew print peer fd c =
    (record { held = (_, refl, refl, refl); counted = refl; connector = refl }, refl)

emit_if-handlers : (b : Bool) (e : Effect) (t : Connection) → (emit_if b e t).handlers ≡ t.handlers
emit_if-handlers true e t = refl
emit_if-handlers false e t = refl

take_down-handlers : (t : Connection) → (take_down t).handlers ≡ t.handlers
take_down-handlers t = elim (Bool-cases (same_status t.status connected)) [
  | inl up ↦ rw up (emit_if-handlers t.handlers.has_connection called_connection _)
  | inr down ↦ rw down refl
]

any_close : (es : List Effect) → calls_close (es ++ called_close ∷ []) ≡ true
any_close [] = refl
any_close (e ∷ es) = elim (Bool-cases (is_close e)) [
  | inl h ↦ rw h refl
  | inr h ↦ rw h (any_close es)
]

emit_closes :
    (b : Bool) (t : Connection) → b ≡ true → calls_close (emit_if b called_close t).trace ≡ true
emit_closes true t h = any_close t.trace
emit_closes false t h = absurd (ground (arith, h))

-- `HandleClose` of a connection that has a close callback calls it.
closing_calls :
    (t : Connection)
    → t.handlers.has_close ≡ true
    → Returns (handle_close true t) (λ u. calls_close u.trace ≡ true)
unfolding handle_close connect_destroyed
closing_calls t h =
    emit_closes (take_down t).handlers.has_close _
      (ap (λ k. k.has_close) (take_down-handlers t) ∙ h)

ends_if_called :
    (a : Connector.Attempt) (c : TcpClient) (m : Outcome Connection)
    → Returns m (λ u. calls_close u.trace ≡ true)
    → (m >>= λ u. if calls_close u.trace then remove_connection true a c else ok c) ≡ fatal
unfolding remove_connection
ends_if_called a c (ok u) k = rw k refl
ends_if_called a c fatal k = refl
ends_if_called a c thrown k = elim k [ ]
ends_if_called a c fault k = elim k [ ]

-- After NewConnection of a client in the loop's thread has returned, `HandleClose` in that thread of a
-- connection with the callbacks that NewConnection gives it, whatever its state, aborts the process: it
-- calls the close callback, and RemoveConnection aborts in the loop's thread.
pub close_connection_aborts :
    (print : ℕ → List ℕ) (peer : List ℕ) (fd : ℕ) (a : Connector.Attempt) (t : Connection)
    (c : TcpClient)
    → t.handlers ≡ (new_tcp_connection fd c).handlers
    → Returns (new_connection print peer true fd c) (λ d. close_connection a t d ≡ fatal)
unfolding new_connection new_tcp_connection connect_established TcpConnection.create
    close_connection
close_connection_aborts print peer fd a t c h =
    ends_if_called a _ (handle_close true (record t { trace = [] }))
      (closing_calls (record t { trace = [] }) (ap (λ k. k.has_close) h))
