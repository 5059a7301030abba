-- ===== src/Net/Poller/Tests.antt =====
-- A poller with three channels: adding, changing and removing them.
use thread_library.Prelude.{
  ℕ, ◌≡◌, refl, inl, [], ◌∷◌, Option, none, some, ◌==◌, if◌then◌else◌, subst, ◌+◌,
}
use thread_library.Prelude.Int.{pos}
use thread_library.Prelude.Outcome.{Outcome, ok, Returns, ◌>>=◌}
use thread_library.Net.Channel.{Channel, is_none_event}
use thread_library.Net.Channel
use thread_library.Net.Poller.{Poller, update_channel, remove_channel, poll, polled}
use thread_library.Net.Poller
use thread_library.Net.Poller.Consistent.{
  At, IsConsistent, create-IsConsistent, update_channel-IsConsistent,
}
use thread_library.Net.Poller.Remove.{Removed, remove_channel-Removed}

-- The channel behind pointer p watches descriptor p + 10.
abbrev channels : ℕ → Channel
channels p = record (Channel.create 1 (p + 10)) { interested = 3 }

abbrev start : Poller
start = Poller.create channels

abbrev one : Poller
one = record {
  pollfds = record { fd = pos 10; events = 3; revents = 0 } ∷ [];
  channels = λ fd. if 10 == fd then some 0 else none;
  chans = λ p. if 0 == p then record (channels 0) { poll_index = pos 0 } else channels p;
}

added : update_channel 0 start ≡ ok one
unfolding update_channel Poller.create Channel.create
added = refl

one-facts : IsConsistent one × ((i : ℕ) × At one i 0)
unfolding Channel.create
one-facts =
    subst (λ o. Returns o (λ u. IsConsistent u × ((i : ℕ) × At u i 0))) added
      (update_channel-IsConsistent start 0 (create-IsConsistent channels)
        (inl (unfold Poller.create in (refl, refl))))

remove_channel-Removed_example : Returns (remove_channel 0 one) (Removed one 0 one-facts.1.0)
remove_channel-Removed_example =
    remove_channel-Removed one 0 one-facts.1.0 one-facts.0 one-facts.1.1

-- Three channels, the first removed: the third stands in its place.
swapped : Outcome (Option ℕ)
swapped = do
  a ← update_channel 0 start
  b ← update_channel 1 a
  c ← update_channel 2 b
  d ← remove_channel 0 c
  ok (d.channels 12)

swapped-eq : swapped ≡ ok (some 2)
unfolding swapped update_channel remove_channel Poller.create Channel.create
swapped-eq = refl
