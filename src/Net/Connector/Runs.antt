-- ===== src/Net/Connector/Runs.antt =====
-- Runs of a connector: what its tasks, the poller and `Stop` do to it, in any order.
use thread_library.Prelude.{
  ℕ, ◌≡◌, refl, Bool, true, false, List, [], ◌∷◌, ◌++◌, Option, none, some, All, Bool-cases, inl,
  inr,
}
use thread_library.Prelude.Outcome.{Returns, Returns->>=, ◌>>=◌}
use thread_library.Net.Channel.{Channel, disable_all}
use thread_library.Net.Connector.{
  ConnectStatus, disconnected, connecting, connected, ConnectError, no_error, einprogress, eintr,
  eisconn, eagain, eaddrinuse, econnrefused, enetunreach, eacces, eperm, eafnosupport, ealready,
  ebadf, efault, enotsock, other, Attempt, Task, start_task, stop_task, reset_task, Effect,
  Connector, set_state, retry, connecting_channel, begin_connecting, by_error, try_connect,
  start_in_loop, start, remove_and_reset_channel, reset_channel, stop, stop_in_loop, handle_write,
  succeed, detach, handle_error, run_callback, run_callbacks, dispatch, run_task, create,
}
use thread_library.Net.Connector
use thread_library.Net.Connector.Events.{
  Event, stop_called, written, errored, next_task, is_watched, run_next, occur, run, IsStop,
  NotStart, IsUnwatched, IsGood, IsSound, stops-NotStart, stops-snoc, NotStart-snoc,
  IsOrdered-start, IsOrdered-NotStart, IsOrdered-stop,
}

retry-IsSound :
    (fd : ℕ) (c : Connector) → IsUnwatched c.channel → All NotStart c.tasks → IsSound (retry fd c)
unfolding retry set_state
retry-IsSound fd c u h = elim (Bool-cases c.connect) [
  | inl e ↦ rw e (u, IsOrdered-start c.tasks h)
  | inr e ↦ rw e (u, IsOrdered-NotStart c.tasks h)
]

by_error-IsSound :
    (e : ConnectError) (fd : ℕ) (c : Connector)
    → c.status ≡ disconnected
    → IsUnwatched c.channel
    → All IsStop c.tasks
    → IsSound (by_error e fd c)
unfolding by_error begin_connecting set_state
by_error-IsSound no_error fd c s u h = (tt, h)
by_error-IsSound einprogress fd c s u h = (tt, h)
by_error-IsSound eintr fd c s u h = (tt, h)
by_error-IsSound eisconn fd c s u h = (tt, h)
by_error-IsSound eagain fd c s u h = retry-IsSound fd c u (stops-NotStart c.tasks h)
by_error-IsSound eaddrinuse fd c s u h = retry-IsSound fd c u (stops-NotStart c.tasks h)
by_error-IsSound econnrefused fd c s u h = retry-IsSound fd c u (stops-NotStart c.tasks h)
by_error-IsSound enetunreach fd c s u h = retry-IsSound fd c u (stops-NotStart c.tasks h)
by_error-IsSound eacces fd c s u h = rw s (u, IsOrdered-NotStart c.tasks (stops-NotStart c.tasks h))
by_error-IsSound eperm fd c s u h = rw s (u, IsOrdered-NotStart c.tasks (stops-NotStart c.tasks h))
by_error-IsSound eafnosupport fd c s u h =
    rw s (u, IsOrdered-NotStart c.tasks (stops-NotStart c.tasks h))
by_error-IsSound ealready fd c s u h =
    rw s (u, IsOrdered-NotStart c.tasks (stops-NotStart c.tasks h))
by_error-IsSound ebadf fd c s u h = rw s (u, IsOrdered-NotStart c.tasks (stops-NotStart c.tasks h))
by_error-IsSound efault fd c s u h = rw s (u, IsOrdered-NotStart c.tasks (stops-NotStart c.tasks h))
by_error-IsSound enotsock fd c s u h =
    rw s (u, IsOrdered-NotStart c.tasks (stops-NotStart c.tasks h))
by_error-IsSound other fd c s u h = rw s (u, IsOrdered-NotStart c.tasks (stops-NotStart c.tasks h))

try_connect-IsSound :
    (a : Attempt) (c : Connector)
    → c.status ≡ disconnected
    → IsUnwatched c.channel
    → All IsStop c.tasks
    → a.opened ≡ true
    → Returns (try_connect a c) IsSound
unfolding try_connect
try_connect-IsSound a c s u h opens = by_answer a.answer
  where
    by_answer :
        (o : Option ConnectError) → Returns (try_connect (record a { answer = o }) c) IsSound
    by_answer none =
        rw opens (by_error-IsSound no_error a.fd (Connector.emit (Connector.closed a.fd) c) s u h)
    by_answer (some e) = rw opens (by_error-IsSound e a.fd c s u h)

succeed-IsSound :
    (fd : ℕ) (c : Connector) → IsUnwatched c.channel → All NotStart c.tasks → IsSound (succeed fd c)
unfolding succeed set_state
succeed-IsSound fd c u h = elim (Bool-cases c.connect) [ inl e ↦ rw e (u, h) | inr e ↦ rw e (u, h) ]

unwatched : (ch : Option Channel) → IsUnwatched ch → is_watched ch ≡ false
unwatched none u = refl
unwatched (some k) u = rw u refl

-- After `RemoveAndResetChannel` the connector may retry or succeed.
module _ (l : ℕ) (b : Bool) (k : Channel) (d : ℕ) (ts : List Task) (tr : List Effect)
    (h : All IsStop ts) where
  abbrev running : Connector
  running = record {
    loop = l;
    connect = b;
    status = connecting;
    channel = some k;
    retry_delay_ms = d;
    tasks = ts;
    trace = tr;
  }

  reset_queued : All NotStart (ts ++ reset_task ∷ [])
  reset_queued = NotStart-snoc ts reset_task (stops-NotStart ts h) tt

  handle_write-IsSound : (failed : Bool) → Returns (handle_write failed running) IsSound
  unfolding handle_write remove_and_reset_channel detach disable_all
  handle_write-IsSound true = retry-IsSound k.fd (detach k running) refl reset_queued
  handle_write-IsSound false = succeed-IsSound k.fd (detach k running) refl reset_queued

  handle_error-IsSound : Returns (handle_error running) IsSound
  unfolding handle_error remove_and_reset_channel detach disable_all
  handle_error-IsSound = retry-IsSound k.fd (detach k running) refl reset_queued

  stop_in_loop-IsSound : Returns (stop_in_loop true running) IsSound
  unfolding stop_in_loop remove_and_reset_channel detach disable_all set_state
  stop_in_loop-IsSound =
      retry-IsSound k.fd (detach k (set_state disconnected running)) refl reset_queued

module _ (l : ℕ) (b : Bool) (d : ℕ) (tr : List Effect) where
  abbrev at : ConnectStatus → Option Channel → List Task → Connector
  at s ch ts = record {
    loop = l;
    connect = b;
    status = s;
    channel = ch;
    retry_delay_ms = d;
    tasks = ts;
    trace = tr;
  }

  stop-IsSound :
      (s : ConnectStatus) (ch : Option Channel) (ts : List Task)
      → IsGood s ch ts
      → IsSound (stop (at s ch ts))
  unfolding stop
  stop-IsSound disconnected ch ts h = (h.0, IsOrdered-stop ts h.1)
  stop-IsSound connecting ch ts h = (h.0, stops-snoc ts h.1)
  stop-IsSound connected ch ts h = (h.0, NotStart-snoc ts stop_task h.1 tt)

  written-IsSound :
      (failed : Bool) (s : ConnectStatus) (ch : Option Channel) (ts : List Task)
      → IsGood s ch ts
      → Returns (occur (written failed) (at s ch ts)) IsSound
  unfolding occur
  written-IsSound failed disconnected ch ts h = rw (unwatched ch h.0) h
  written-IsSound failed connected ch ts h = rw (unwatched ch h.0) h
  written-IsSound failed connecting none ts h = absurd h.0
  written-IsSound failed connecting (some k) ts h = elim (Bool-cases (is_watched (some k))) [
    | inl e ↦ rw e (handle_write-IsSound l b k d ts tr h.1 failed)
    | inr e ↦ rw e h
  ]

  errored-IsSound :
      (s : ConnectStatus) (ch : Option Channel) (ts : List Task)
      → IsGood s ch ts
      → Returns (occur errored (at s ch ts)) IsSound
  unfolding occur
  errored-IsSound disconnected ch ts h = rw (unwatched ch h.0) h
  errored-IsSound connected ch ts h = rw (unwatched ch h.0) h
  errored-IsSound connecting none ts h = absurd h.0
  errored-IsSound connecting (some k) ts h = elim (Bool-cases (is_watched (some k))) [
    | inl e ↦ rw e (handle_error-IsSound l b k d ts tr h.1)
    | inr e ↦ rw e h
  ]

  start_task-IsSound :
      (a : Attempt) (ch : Option Channel) (ts : List Task)
      → IsUnwatched ch
      → All IsStop ts
      → a.opened ≡ true
      → Returns (start_in_loop true a (at disconnected ch ts)) IsSound
  unfolding start_in_loop
  start_task-IsSound a ch ts u h opens = elim (Bool-cases b) [
    | inl e ↦ rw e (try_connect-IsSound a (at disconnected ch ts) refl u h opens)
    | inr e ↦ rw e (u, IsOrdered-NotStart ts (stops-NotStart ts h))
  ]

  run_next-IsSound :
      (a : Attempt) (s : ConnectStatus) (ch : Option Channel) (ts : List Task)
      → IsGood s ch ts
      → a.opened ≡ true
      → Returns (run_next a ts (at s ch ts)) IsSound
  unfolding run_next run_task reset_channel stop_in_loop
  run_next-IsSound a s ch [] h opens = h
  run_next-IsSound a disconnected ch (start_task ∷ ts) h opens =
      start_task-IsSound a ch ts h.0 h.1 opens
  run_next-IsSound a disconnected ch (stop_task ∷ ts) h opens = h
  run_next-IsSound a disconnected ch (reset_task ∷ ts) h opens = (tt, h.1)
  run_next-IsSound a connecting none (t ∷ ts) h opens = absurd h.0
  run_next-IsSound a connecting (some k) (start_task ∷ ts) h opens = absurd h.1.0
  run_next-IsSound a connecting (some k) (stop_task ∷ ts) h opens =
      stop_in_loop-IsSound l b k d ts tr h.1.1
  run_next-IsSound a connecting (some k) (reset_task ∷ ts) h opens = absurd h.1.0
  run_next-IsSound a connected ch (start_task ∷ ts) h opens = absurd h.1.0
  run_next-IsSound a connected ch (stop_task ∷ ts) h opens = (h.0, h.1.1)
  run_next-IsSound a connected ch (reset_task ∷ ts) h opens = (tt, h.1.1)

-- The socket that a task of the loop may need can be opened.
abbrev pub IsOpened : Event → Type 0
IsOpened (next_task a) = a.opened ≡ true
IsOpened _ = Unit

occur-IsSound : (e : Event) (c : Connector) → IsOpened e → IsSound c → Returns (occur e c) IsSound
unfolding occur
occur-IsSound stop_called c opens h =
    stop-IsSound c.loop c.connect c.retry_delay_ms c.trace c.status c.channel c.tasks h
occur-IsSound (written failed) c opens h =
    written-IsSound c.loop c.connect c.retry_delay_ms c.trace failed c.status c.channel c.tasks h
occur-IsSound errored c opens h =
    errored-IsSound c.loop c.connect c.retry_delay_ms c.trace c.status c.channel c.tasks h
occur-IsSound (next_task a) c opens h =
    run_next-IsSound c.loop c.connect c.retry_delay_ms c.trace a c.status c.channel c.tasks h opens

run-IsSound :
    (es : List Event) (c : Connector) → All IsOpened es → IsSound c → Returns (run es c) IsSound
unfolding run
run-IsSound [] c opens h = h
run-IsSound (e ∷ es) c (first, opens) h =
    Returns->>= (occur e c) (run es) IsSound IsSound (occur-IsSound e c first h)
      (λ d k. run-IsSound es d opens k)

-- If every socket(2) succeeds, a new connector that is started, in its loop's thread or from another, comes
-- through any sequence of stops, single reports of the poller on a channel it watches and tasks of the loop
-- without an abort or a missing channel, and its invariant holds at the end.
pub run-start :
    (loop : ℕ) (in_loop : Bool) (a : Attempt) (es : List Event)
    → a.opened ≡ true
    → All IsOpened es
    → Returns (start in_loop a (create loop) >>= run es) IsSound
unfolding start create start_in_loop
run-start loop in_loop a es opens all_open =
    Returns->>= (start in_loop a (create loop)) (run es) IsSound IsSound (started in_loop)
      (λ c h. run-IsSound es c all_open h)
  where
    started : (in_loop : Bool) → Returns (start in_loop a (create loop)) IsSound
    started true = try_connect-IsSound a (record (create loop) { connect = true }) refl tt tt opens
    started false = (tt, tt)
