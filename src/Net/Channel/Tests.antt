-- ===== src/Net/Channel/Tests.antt =====
-- The switches of a channel, and the order of its callbacks, at concrete event sets.
use thread_library.Prelude.{◌≡◌, refl, true, [], ◌∷◌}
use thread_library.Net.Channel.{
  Channel, create, handle_event, on_read, on_write, on_close, on_error,
}

abbrev reader : Channel
reader = record (create 1 7) {
  interested = 3;
  current = 0x5;
  callbacks = record { has_read = true; has_write = true; has_close = true; has_error = true };
}

-- POLLIN and POLLOUT: the read callback comes first.
both_ready : handle_event reader ≡ on_read ∷ on_write ∷ []
unfolding handle_event
both_ready = refl

-- POLLHUP with POLLERR and no POLLIN.
hung_up : handle_event (record reader { current = 0x18 }) ≡ on_close ∷ on_error ∷ []
unfolding handle_event
hung_up = refl
