-- ===== src/Net/TcpConnection/Close.antt =====
-- How a connection ends: the effects of `HandleClose`, and what they do to the poller.
use thread_library.Prelude.{ℕ, List, [], ◌∷◌}
use thread_library.Prelude.Outcome.{Outcome, ok, ◌>>=◌}
use thread_library.Net.Poller.{Poller, update, update_channel, remove_channel}
use thread_library.Net.TcpConnection.{
  Effect, poll_update, poll_remove, called_connection, called_close,
}

-- The channel p with another interest.
abbrev with_interest : ℕ → ℕ → Poller → Poller
with_interest p events w = record w {
  chans = update w.chans p (record (w.chans p) { interested = events });
}

-- The effects of a connection on the poller that watches its channel p.
unfoldable pub on_poller : ℕ → List Effect → Poller → Outcome Poller
on_poller p [] w = ok w
on_poller p (poll_update events ∷ es) w =
    update_channel p (with_interest p events w) >>= λ u. on_poller p es u
on_poller p (poll_remove ∷ es) w = remove_channel p w >>= λ u. on_poller p es u
on_poller p (_ ∷ es) w = on_poller p es w

-- What `HandleClose` does to a connection that is up and has its callbacks.
abbrev close_effects : List Effect
close_effects =
    poll_update 0
    ∷ called_connection
    ∷ poll_remove
    ∷ poll_update 0
    ∷ called_connection
    ∷ called_close
    ∷ []

-- The calls among the effects.
abbrev pub calls : List Effect → List Effect
calls [] = []
calls (poll_update _ ∷ es) = calls es
calls (poll_remove ∷ es) = calls es
calls (e ∷ es) = e ∷ calls es

abbrev pub close_calls : List Effect
close_calls = called_connection ∷ called_connection ∷ called_close ∷ []
