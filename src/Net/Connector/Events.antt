-- ===== src/Net/Connector/Events.antt =====
-- What can happen to a connector, and the order of the tasks it has queued.
use thread_library.Prelude.{
  ◌≡◌, Bool, false, not, List, [], ◌∷◌, ◌++◌, Option, none, some, All, if◌then◌else◌, ◌==◌,
}
use thread_library.Prelude.Outcome.{Outcome, ok, ◌>>=◌}
use thread_library.Net.Channel.{Channel}
use thread_library.Net.Connector.{
  ConnectStatus, disconnected, connecting, connected, Attempt, Task, start_task, stop_task,
  reset_task, Connector, stop, handle_write, handle_error, run_task,
}

-- A call of `Stop`, a report of the poller for the channel, or the next task of the loop.
pub data Event : Type 0 where
  stop_called : Event
  written : Bool → Event
  errored : Event
  next_task : Attempt → Event

abbrev pub is_watched : Option Channel → Bool
is_watched none = false
is_watched (some k) = not (k.interested == 0)

unfoldable pub run_next : Attempt → List Task → Connector → Outcome Connector
unfolding run_task
run_next a [] c = ok c
run_next a (t ∷ ts) c = run_task a t (record c { tasks = ts })

-- The poller reports only on a channel that is there and interested in something.
unfoldable pub occur : Event → Connector → Outcome Connector
unfolding stop handle_write handle_error run_next
occur stop_called c = ok (stop c)
occur (written failed) c = if is_watched c.channel then handle_write failed c else ok c
occur errored c = if is_watched c.channel then handle_error c else ok c
occur (next_task a) c = run_next a c.tasks c

unfoldable pub run : List Event → Connector → Outcome Connector
unfolding occur
run [] c = ok c
run (e ∷ es) c = occur e c >>= run es

abbrev pub IsStop : Task → Type 0
IsStop stop_task = Unit
IsStop _ = ⊥

abbrev pub NotStart : Task → Type 0
NotStart start_task = ⊥
NotStart _ = Unit

-- No task that deletes the channel comes after the one that connects again.
abbrev pub IsOrdered : List Task → Type 0
IsOrdered [] = Unit
IsOrdered (start_task ∷ ts) = All IsStop ts
IsOrdered (stop_task ∷ ts) = IsOrdered ts
IsOrdered (reset_task ∷ ts) = IsOrdered ts

abbrev pub IsThere : Option Channel → Type 0
IsThere none = ⊥
IsThere (some _) = Unit

abbrev pub IsUnwatched : Option Channel → Type 0
IsUnwatched none = Unit
IsUnwatched (some k) = k.interested ≡ 0

abbrev pub IsGood : ConnectStatus → Option Channel → List Task → Type 0
IsGood disconnected ch ts = IsUnwatched ch × IsOrdered ts
IsGood connecting ch ts = IsThere ch × All IsStop ts
IsGood connected ch ts = IsUnwatched ch × All NotStart ts

-- While the connector is CONNECTING its channel is there and no task is queued that deletes it or that
-- connects again; otherwise the poller does not watch a channel of it.
abbrev pub IsSound : Connector → Type 0
IsSound c = IsGood c.status c.channel c.tasks

pub stops-NotStart : (ts : List Task) → All IsStop ts → All NotStart ts
stops-NotStart [] h = tt
stops-NotStart (stop_task ∷ ts) h = (tt, stops-NotStart ts h.1)
stops-NotStart (start_task ∷ ts) h = absurd h.0
stops-NotStart (reset_task ∷ ts) h = absurd h.0

pub stops-snoc : (ts : List Task) → All IsStop ts → All IsStop (ts ++ stop_task ∷ [])
stops-snoc [] h = (tt, tt)
stops-snoc (t ∷ ts) h = (h.0, stops-snoc ts h.1)

pub NotStart-snoc :
    (ts : List Task) (t : Task) → All NotStart ts → NotStart t → All NotStart (ts ++ t ∷ [])
NotStart-snoc [] t h k = (k, tt)
NotStart-snoc (x ∷ ts) t h k = (h.0, NotStart-snoc ts t h.1 k)

pub IsOrdered-start : (ts : List Task) → All NotStart ts → IsOrdered (ts ++ start_task ∷ [])
IsOrdered-start [] h = tt
IsOrdered-start (stop_task ∷ ts) h = IsOrdered-start ts h.1
IsOrdered-start (reset_task ∷ ts) h = IsOrdered-start ts h.1
IsOrdered-start (start_task ∷ ts) h = absurd h.0

pub IsOrdered-NotStart : (ts : List Task) → All NotStart ts → IsOrdered ts
IsOrdered-NotStart [] h = tt
IsOrdered-NotStart (stop_task ∷ ts) h = IsOrdered-NotStart ts h.1
IsOrdered-NotStart (reset_task ∷ ts) h = IsOrdered-NotStart ts h.1
IsOrdered-NotStart (start_task ∷ ts) h = absurd h.0

pub IsOrdered-stop : (ts : List Task) → IsOrdered ts → IsOrdered (ts ++ stop_task ∷ [])
IsOrdered-stop [] h = tt
IsOrdered-stop (stop_task ∷ ts) h = IsOrdered-stop ts h
IsOrdered-stop (reset_task ∷ ts) h = IsOrdered-stop ts h
IsOrdered-stop (start_task ∷ ts) h = stops-snoc ts h
