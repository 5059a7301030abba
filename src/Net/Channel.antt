-- ===== src/Net/Channel.antt =====
-- framework/net/include/Channel.hpp and framework/net/src/Channel.cpp. An event set is the number that
-- poll(2) defines; a callback is known by its name and by whether it is set.
pub mod Events
mod Tests
use Prim.Native.Nat.{bit_and, bit_or}
use thread_library.Prelude.{
  ℕ, ◌+◌, ◌-◌, ◌/◌, ◌%◌, ◌^◌, Bool, true, false, not, ◌&&◌, ◌||◌, List, [], ◌∷◌, ◌++◌, ◌==◌,
  if◌then◌else◌,
}
use thread_library.Prelude.Int.{ℤ, pos, negsuc}

abbrev pollin : ℕ
pollin = 0x1

abbrev pollpri : ℕ
pollpri = 0x2

abbrev pub pollout : ℕ
pollout = 0x4

abbrev pub pollerr : ℕ
pollerr = 0x8

abbrev pollhup : ℕ
pollhup = 0x10

abbrev pollnval : ℕ
pollnval = 0x20

abbrev pollrdhup : ℕ
pollrdhup = 0x2000

abbrev none_event : ℕ
none_event = 0

abbrev pub read_event : ℕ
read_event = bit_or pollin pollpri

abbrev write_event : ℕ
write_event = pollout

-- `~flags` on a 32-bit int.
abbrev complement : ℕ → ℕ
complement flags = 2 ^ 32 - 1 - flags

pub data Callback : Type 0 where
  on_read on_write on_close on_error : Callback

pub record Callbacks : Type 0 where
  pub has_read : Bool
  pub has_write : Bool
  pub has_close : Bool
  pub has_error : Bool

pub record Channel : Type 0 where
  pub owner : ℕ
  pub fd : ℕ
  pub interested : ℕ
  pub current : ℕ
  pub poll_index : ℤ
  pub added_to_loop : Bool
  pub callbacks : Callbacks

unfoldable pub create : ℕ → ℕ → Channel
create loop fd = record {
  owner = loop;
  fd = fd;
  interested = none_event;
  current = none_event;
  poll_index = negsuc 0;
  added_to_loop = false;
  callbacks = record { has_read = false; has_write = false; has_close = false; has_error = false };
}

unfoldable pub set_read_callback : Channel → Channel
set_read_callback c = record c { callbacks = record c.callbacks { has_read = true } }

unfoldable set_write_callback : Channel → Channel
set_write_callback c = record c { callbacks = record c.callbacks { has_write = true } }

unfoldable pub set_close_callback : Channel → Channel
set_close_callback c = record c { callbacks = record c.callbacks { has_close = true } }

unfoldable set_error_callback : Channel → Channel
set_error_callback c = record c { callbacks = record c.callbacks { has_error = true } }

-- The new state of a channel that then calls `UpdatePollList`.
unfoldable pub enable_reading : Bool → Channel → Channel
enable_reading status c = record c {
  interested =
      if status
      then bit_or c.interested read_event
      else bit_and c.interested (complement read_event);
  added_to_loop = true;
}

unfoldable pub enable_writing : Bool → Channel → Channel
enable_writing status c = record c {
  interested =
      if status
      then bit_or c.interested write_event
      else bit_and c.interested (complement write_event);
  added_to_loop = true;
}

unfoldable pub disable_all : Channel → Channel
disable_all c = record c { interested = none_event; added_to_loop = true }

unfoldable pub is_reading : Channel → Bool
is_reading c = not (bit_and c.interested read_event == 0)

unfoldable pub is_writing : Channel → Bool
is_writing c = not (bit_and c.interested write_event == 0)

unfoldable pub is_none_event : Channel → Bool
is_none_event c = c.interested == none_event

unfoldable pub set_current_events : ℕ → Channel → Channel
set_current_events events c = record c { current = events }

-- `events & flag`, for a flag of one bit.
abbrev pub has : ℕ → ℕ → Bool
has events flag = events / flag % 2 == 1

abbrev call_if : Bool → Callback → List Callback
call_if set cb = if set then cb ∷ [] else []

-- The callbacks that `HandleEvent` calls, in order.
unfoldable pub handle_event : Channel → List Callback
handle_event c =
    call_if (has e pollhup && not (has e pollin) && c.callbacks.has_close) on_close
    ++ (call_if ((has e pollerr || has e pollnval) && c.callbacks.has_error) on_error
        ++ (call_if ((has e pollin || has e pollpri || has e pollrdhup) && c.callbacks.has_read)
              on_read
            ++ call_if (has e pollout && c.callbacks.has_write) on_write))
  where
    e : ℕ
    e = c.current

-- The names of the events in the order in which `EventsToString` tests for them.
abbrev event_names : List (ℕ × List ℕ)
event_names =
    (pollin, b'I' ∷ b'N' ∷ b' ' ∷ [])
    ∷ (pollpri, b'P' ∷ b'R' ∷ b'I' ∷ b' ' ∷ [])
    ∷ (pollout, b'O' ∷ b'U' ∷ b'T' ∷ b' ' ∷ [])
    ∷ (pollhup, b'H' ∷ b'U' ∷ b'P' ∷ b' ' ∷ [])
    ∷ (pollrdhup, b'R' ∷ b'D' ∷ b'H' ∷ b'U' ∷ b'P' ∷ b' ' ∷ [])
    ∷ (pollerr, b'E' ∷ b'R' ∷ b'R' ∷ b' ' ∷ [])
    ∷ (pollnval, b'N' ∷ b'V' ∷ b'A' ∷ b'L' ∷ b' ' ∷ [])
    ∷ []

abbrev names_of : ℕ → List (ℕ × List ℕ) → List ℕ
names_of e [] = []
names_of e ((flag, name) ∷ ns) = if has e flag then name ++ names_of e ns else names_of e ns

-- `print` is the stream's text of a number.
unfoldable events_to_string : (ℕ → List ℕ) → Channel → List ℕ
events_to_string print c = print c.fd ++ b' ' ∷ b':' ∷ b' ' ∷ names_of c.current event_names
