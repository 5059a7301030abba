-- ===== src/Net/Connector/Reports.antt =====
-- A report of the poller that calls more than one callback of a connector.
use thread_library.Prelude.{
  ℕ, ◌≡◌, refl, Bool, true, false, ◌&&◌, [], ◌∷◌, some, Bool-cases, inl, inr,
}
use thread_library.Prelude.Outcome.{fatal}
use thread_library.Net.Channel.{
  Channel, is_none_event, disable_all, handle_event, has, pollerr, pollout, enable_writing,
  on_error, on_write,
}
use thread_library.Net.Channel
use thread_library.Net.Connector.{
  connecting, Connector, set_state, retry, connecting_channel, remove_and_reset_channel,
  handle_write, detach, handle_error, run_callback, run_callbacks, dispatch,
}

has_and_false : (b : Bool) → b && false ≡ false
has_and_false true = refl
has_and_false false = refl

error_then_write :
    (loop fd events : ℕ)
    → has events pollerr ≡ true
    → has events pollout ≡ true
    → handle_event (record (connecting_channel loop fd) { current = events })
      ≡ on_error ∷ on_write ∷ []
unfolding handle_event connecting_channel Channel.create enable_writing
error_then_write loop fd events err out = rw err (rw out (rw has_and_false (rw has_and_false refl)))

aborts_after : (failed : Bool) (c : Connector) (fd : ℕ) → handle_write failed (retry fd c) ≡ fatal
unfolding handle_write retry set_state
aborts_after failed c fd = elim (Bool-cases c.connect) [ inl e ↦ rw e refl | inr e ↦ rw e refl ]

-- When one report of the poller has both POLLERR and POLLOUT, as on a refused connection, the write
-- callback follows the error callback and aborts, since the status is DISCONNECTED by then.
pub dispatch_aborts :
    (failed : Bool) (events : ℕ) (fd : ℕ) (c : Connector)
    → c.status ≡ connecting
    → c.channel ≡ some (connecting_channel c.loop fd)
    → has events pollerr ≡ true
    → has events pollout ≡ true
    → dispatch failed events (connecting_channel c.loop fd) c ≡ fatal
unfolding dispatch run_callbacks run_callback handle_error remove_and_reset_channel
dispatch_aborts failed events fd c s k err out = rw (error_then_write c.loop fd events err out) (
    rw s (
      rw k (
        rw
          (aborts_after failed (detach (connecting_channel c.loop fd) c)
            (connecting_channel c.loop fd).fd)
          refl)))
