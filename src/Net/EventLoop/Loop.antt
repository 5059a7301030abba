-- ===== src/Net/EventLoop/Loop.antt =====
-- `Loop` and `Quit` of framework/net/src/EventLoop.cpp. What happens while the loop polls and handles are
-- arguments, one `Round` after the other; a callback is known by its name. The poll, which has no time
-- limit, returns only when the wake-up descriptor is readable, another channel is active or a signal comes;
-- until then the rounds go by. A task queues other tasks, and does not quit.
pub mod Ends
use thread_library.Prelude.{
  ℕ, ◌+◌, Bool, true, false, not, ◌&&◌, ◌||◌, ltb, List, [], ◌∷◌, ◌++◌, if◌then◌else◌,
}
use thread_library.Prelude.Outcome.{Outcome, ok, fatal}
use thread_library.Net.Channel.{Channel, Callback, handle_event}
use thread_library.Net.EventLoop.{EventLoop, queue_in_loop, wake_up, handle_read, do_pending_task}

pub record Looping : Type 0 where
  pub loop : EventLoop
  -- `loop_` and `quit_`
  pub looping : Bool
  pub quit : Bool
  -- the descriptors whose events were handled, with the callbacks that ran
  pub handled : List (ℕ × List Callback)

-- A call of QueueInLoop or of Quit.
pub data Request : Type 0 where
  queues : ℕ → Request
  quits : Request

-- The calls of other threads, the channels but the wake-up channel that are active, and whether a signal
-- comes, while the loop polls; and the calls that the callbacks of the channels make if the poll returns.
pub record Round : Type 0 where
  pub interrupted : Bool
  pub before : List Request
  pub active : List Channel
  pub within : List Request

unfoldable pub quit_loop : Looping → Looping
quit_loop l = record l { quit = true; loop = wake_up l.loop }

unfoldable pub serve : Bool → Request → Looping → Looping
unfolding quit_loop
serve in_thread (queues t) l = record l { loop = queue_in_loop in_thread t l.loop }
serve in_thread quits l = quit_loop l

unfoldable pub serve_all : Bool → List Request → Looping → Looping
unfolding serve
serve_all in_thread [] l = l
serve_all in_thread (r ∷ rs) l = serve_all in_thread rs (serve in_thread r l)

unfoldable pub handle_active : List Channel → Looping → Looping
handle_active [] l = l
handle_active (c ∷ cs) l =
    handle_active cs (record l { handled = l.handled ++ (c.fd, handle_event c) ∷ [] })

-- One turn of the loop's body, whose poll returns. The wake-up channel is the first in the poller's list.
unfoldable pub turn : (ℕ → List ℕ) → Round → Looping → Looping
unfolding serve_all handle_active
turn body r l =
    let w = serve_all false r.before l in
    let m =
      serve_all true r.within (handle_active r.active (record w { loop = handle_read w.loop })) in
    record m { loop = do_pending_task body m.loop }

abbrev pub has_some : {A : Type 0} → List A → Bool
has_some [] = false
has_some (_ ∷ _) = true

-- Whether the poll returns.
unfoldable pub poll_returns : Round → Looping → Bool
unfolding serve_all
poll_returns r l =
    r.interrupted || (has_some r.active || ltb 0 (serve_all false r.before l).loop.wake_ups)

-- Loop has returned, or is in the poll after the rounds that were given.
pub data Run : Type 0 where
  ended polls : Looping → Run

-- `in_poll` says whether the loop is in the poll, behind the test of `quit_`.
unfoldable pub turns : (ℕ → List ℕ) → Bool → List Round → Looping → Run
unfolding turn poll_returns
turns body in_poll [] l =
    if not in_poll && l.quit then ended (record l { looping = false }) else polls l
turns body in_poll (r ∷ rs) l =
    let next : Bool × Looping =
      if poll_returns r l then (false, turn body r l) else (true, serve_all false r.before l) in
    let rest = turns body next.0 rs next.1 in
    if not in_poll && l.quit then ended (record l { looping = false }) else rest

unfoldable pub run_loop : (ℕ → List ℕ) → Bool → List Round → Looping → Outcome Run
unfolding turns
run_loop body in_thread rs l =
    if not in_thread
    then fatal
    else if l.looping
    then fatal
    else ok (turns body false rs (record l { looping = true; quit = false }))
