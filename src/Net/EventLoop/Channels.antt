-- ===== src/Net/EventLoop/Channels.antt =====
-- `UpdateChannel`, `RemoveChannel` and `HasChannel` of framework/net/src/EventLoop.cpp, and the switches
-- of framework/net/src/Channel.cpp that end in them, on the loop's poller. A channel pointer is a number
-- or null; `loop` is the loop itself.
pub mod Switches
use thread_library.Prelude.{
  ℕ, Bool, true, false, List, [], ◌∷◌, Option, none, some, ◌==◌, if◌then◌else◌,
}
use thread_library.Prelude.Outcome.{Outcome, ok, fatal, ◌>>=◌}
use thread_library.Net.Channel.{Channel, enable_reading, enable_writing, disable_all}
use thread_library.Net.Poller.{Poller, update}
use thread_library.Net.Poller

-- The tests at the start of each of the three, in their order.
unfoldable pub checked : ℕ → Bool → Option ℕ → Poller → Outcome ℕ
checked loop in_loop none w = fatal
checked loop in_loop (some p) w =
    if (w.chans p).owner == loop then if in_loop then ok p else fatal else fatal

unfoldable pub update_channel : ℕ → Bool → Option ℕ → Poller → Outcome Poller
unfolding checked
update_channel loop in_loop c w = checked loop in_loop c w >>= λ p. Poller.update_channel p w

unfoldable pub remove_channel : ℕ → Bool → Option ℕ → Poller → Outcome Poller
unfolding checked
remove_channel loop in_loop c w = checked loop in_loop c w >>= λ p. Poller.remove_channel p w

unfoldable pub has_channel : ℕ → Bool → Option ℕ → Poller → Outcome Bool
unfolding checked
has_channel loop in_loop c w = checked loop in_loop c w >>= λ p. ok (Poller.has_channel p w)

-- The calls of a channel that change what it is interested in.
pub data Switch : Type 0 where
  enables_reading enables_writing : Bool → Switch
  disables_all : Switch

unfoldable pub switched : Switch → Channel → Channel
switched (enables_reading status) c = enable_reading status c
switched (enables_writing status) c = enable_writing status c
switched disables_all c = disable_all c

-- Such a call on channel `p`, with the `UpdatePollList` at its end.
unfoldable pub switch_channel : ℕ → Bool → Switch → ℕ → Poller → Outcome Poller
unfolding switched update_channel
switch_channel loop in_loop s p w =
    update_channel loop in_loop (some p)
      (record w { chans = update w.chans p (switched s (w.chans p)) })

unfoldable pub switch_all : ℕ → Bool → List Switch → ℕ → Poller → Outcome Poller
unfolding switch_channel
switch_all loop in_loop [] p w = ok w
switch_all loop in_loop (s ∷ ss) p w =
    switch_channel loop in_loop s p w >>= λ u. switch_all loop in_loop ss p u

-- `RemoveSelfInPoll`.
unfoldable pub remove_self : ℕ → Bool → ℕ → Poller → Outcome Poller
unfolding remove_channel
remove_self loop in_loop p w =
    remove_channel loop in_loop (some p)
      (record w { chans = update w.chans p (record (w.chans p) { added_to_loop = false }) })
