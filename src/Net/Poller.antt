-- ===== src/Net/Poller.antt =====
-- framework/net/include/Poller.hpp and framework/net/src/Poller.cpp, with the channels that it points
-- to: a channel pointer is a number, and `chans` is the memory behind it.
pub mod Consistent
pub mod Remove
mod Tests
use thread_library.Prelude.{
  ℕ, zero, suc, ◌+◌, ◌-◌, Bool, true, false, List, [], ◌∷◌, ◌++◌, Option, none, some, length,
  get_elem?, set, ltb, ◌==◌, if◌then◌else◌,
}
use thread_library.Prelude.Int.{ℤ, pos, negsuc}
use thread_library.Prelude.Outcome.{Outcome, ok, fatal, fault, ◌>>=◌}
use thread_library.Net.Channel.{Channel, is_none_event, set_current_events}

-- `struct pollfd`. A descriptor d that is to be ignored is stored as -d - 1.
pub record PollFd : Type 0 where
  pub fd : ℤ
  pub events : ℕ
  pub revents : ℕ

pub record Poller : Type 0 where
  pub pollfds : List PollFd
  pub channels : ℕ → Option ℕ
  pub chans : ℕ → Channel

abbrev pub update {ℓ} : {A : Type ℓ} → (ℕ → A) → ℕ → A → ℕ → A
update f k v j = if k == j then v else f j

-- The descriptor of a channel that a stored one stands for.
abbrev pub real_fd : ℤ → ℕ
real_fd (pos n) = n
real_fd (negsuc n) = n

abbrev pub pop_back {ℓ} : {A : Type ℓ} → List A → List A
pop_back [] = []
pop_back (x ∷ []) = []
pop_back (x ∷ y ∷ xs) = x ∷ pop_back (y ∷ xs)

unfoldable pub create : (ℕ → Channel) → Poller
create chans = record { pollfds = []; channels = λ _. none; chans = chans }

abbrev pub watched : Channel → PollFd
watched c = record { fd = pos c.fd; events = c.interested; revents = 0 }

-- The entry of a channel that is already in the list.
unfoldable pub entry : Channel → PollFd
unfolding is_none_event
entry c = if is_none_event c then record (watched c) { fd = negsuc c.fd } else watched c

abbrev pub set_poll_index : (ℕ → Channel) → ℕ → ℕ → ℕ → Channel
set_poll_index chans p i = update chans p (record (chans p) { poll_index = pos i })

-- `UpdateChannel` of a channel with no index, and with one; an index out of range is a fault.
unfoldable pub add_channel : ℕ → Poller → Poller
add_channel p w = record w {
  pollfds = w.pollfds ++ watched (w.chans p) ∷ [];
  chans = set_poll_index w.chans p (length w.pollfds);
  channels = update w.channels (w.chans p).fd (some p);
}

unfoldable pub change_channel : ℕ → ℕ → Poller → Outcome Poller
unfolding entry
change_channel i p w =
    if ltb i (length w.pollfds)
    then ok (record w { pollfds = set w.pollfds i (entry (w.chans p)) })
    else fault

unfoldable pub update_at : ℤ → ℕ → Poller → Outcome Poller
unfolding add_channel change_channel
update_at (negsuc _) p w = ok (add_channel p w)
update_at (pos i) p w = change_channel i p w

unfoldable pub update_channel : ℕ → Poller → Outcome Poller
unfolding update_at
update_channel p w = update_at (w.chans p).poll_index p w

unfoldable pub has_channel : ℕ → Poller → Bool
has_channel p w = elim (w.channels (w.chans p).fd) [ none ↦ false | some q ↦ q == p ]

-- `channels_[fd]->SetPollIndex(i)`: a missing key gives a null pointer.
unfoldable pub reindex : Option ℕ → ℕ → Poller → Outcome Poller
reindex none i w = fault
reindex (some q) i w = ok (record w { chans = set_poll_index w.chans q i })

-- The entry at `i` goes: the last one is swapped into its place first.
unfoldable pub remove_entry : ℕ → Poller → Option PollFd → Outcome Poller
unfolding reindex
remove_entry i w none = fault
remove_entry i w (some last) =
    if i == length w.pollfds - 1
    then ok (record w { pollfds = pop_back w.pollfds })
    else (reindex (w.channels (real_fd last.fd)) i
        (record w { pollfds = pop_back (set w.pollfds i last) }))

-- `RemoveChannel`. It leaves the index in the channel as it is.
unfoldable pub remove_at : ℤ → ℕ → Poller → Outcome Poller
unfolding remove_entry
remove_at (negsuc _) p w = fault
remove_at (pos i) p w =
    if ltb i (length w.pollfds)
    then remove_entry i (record w { channels = update w.channels (w.chans p).fd none })
        (get_elem? w.pollfds (length w.pollfds - 1))
    else fault

unfoldable pub remove_channel : ℕ → Poller → Outcome Poller
unfolding remove_at
remove_channel p w = remove_at (w.chans p).poll_index p w

-- The key of a stored descriptor; only descriptors that are not ignored are keys.
abbrev find_channel : (ℕ → Option ℕ) → ℤ → Option ℕ
find_channel channels (pos n) = channels n
find_channel channels (negsuc n) = none

-- One round of `FillActiveChannels` at an entry with events; the end iterator is not tested for.
unfoldable activate : Option ℕ → ℕ → Poller × List ℕ → Outcome (Poller × List ℕ)
unfolding set_current_events
activate none events s = fault
activate (some p) events (w, active) = ok (
  record w { chans = update w.chans p (set_current_events events (w.chans p)) },
  active ++ p ∷ [],
)

unfoldable fill_active_channels : ℕ → List PollFd → Poller × List ℕ → Outcome (Poller × List ℕ)
unfolding activate
fill_active_channels zero ps s = ok s
fill_active_channels (suc n) [] s = ok s
fill_active_channels (suc n) (p ∷ ps) s = elim (ltb 0 p.revents) [
  | true ↦
      (activate (find_channel s.0.channels p.fd) p.revents s >>= λ t. fill_active_channels n ps t)
  | false ↦ fill_active_channels (suc n) ps s
]

-- What poll(2) answers: the returned events of each entry and the number of entries that have any, or
-- an error number.
pub data PollResult : Type 0 where
  polled : ℕ → List ℕ → PollResult
  interrupted : ℕ → PollResult

abbrev set_revents : List PollFd → List ℕ → List PollFd
set_revents [] rs = []
set_revents (p ∷ ps) [] = p ∷ ps
set_revents (p ∷ ps) (r ∷ rs) = record p { revents = r } ∷ set_revents ps rs

unfoldable pub poll : PollResult → Poller → List ℕ → Outcome (Poller × List ℕ)
unfolding fill_active_channels
poll (interrupted e) w active = ok (w, active)
poll (polled n rs) w active =
    let ps = set_revents w.pollfds rs in
    fill_active_channels n ps (record w { pollfds = ps }, active)
