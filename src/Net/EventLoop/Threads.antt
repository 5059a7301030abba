-- ===== src/Net/EventLoop/Threads.antt =====
-- The constructor and the destructor of framework/net/src/EventLoop.cpp, with t_eventloop_in_thread: the
-- loop that each thread has. What eventfd(2) answers is an argument, and `p` is the pointer to the wake-up
-- channel.
pub mod OnePerThread
use thread_library.Prelude.{ℕ, Bool, true, false, Option, none, some, ◌==◌, if◌then◌else◌}
use thread_library.Prelude.Int.{ℤ, pos, negsuc}
use thread_library.Prelude.Outcome.{Outcome, ok, fatal, ◌>>=◌}
use thread_library.Net.Channel.{Channel, set_read_callback}
use thread_library.Net.Channel
use thread_library.Net.Poller.{Poller, update}
use thread_library.Net.Poller
use thread_library.Net.EventLoop.Channels.{
  enables_reading, disables_all, switch_channel, remove_self,
}

pub record LoopObject : Type 0 where
  pub id : ℕ
  pub thread_tid : ℕ
  pub wakeup_channel : ℕ
  pub wakeup_fd : ℕ
  pub poller : Poller
  pub fd_closed : Bool

-- t_eventloop_in_thread, by the thread that looks.
abbrev pub InThread : Type 0
InThread = ℕ → Option ℕ

abbrev pub memory : ℕ → ℕ → ℕ → (ℕ → Channel) → ℕ → Channel
memory id p fd chans = update chans p (set_read_callback (Channel.create id fd))

abbrev pub enlisted : ℕ → ℕ → ℕ → ℕ → Poller → LoopObject
enlisted tid id p fd w = record {
  id = id;
  thread_tid = tid;
  wakeup_channel = p;
  wakeup_fd = fd;
  poller = w;
  fd_closed = false;
}

unfoldable pub enroll : ℕ → ℕ → ℕ → ℕ → (ℕ → Channel) → InThread → Outcome (LoopObject × InThread)
enroll tid id p fd chans t =
    switch_channel id true (enables_reading true) p (Poller.create (memory id p fd chans)) >>= λ w.
    ok (enlisted tid id p fd w, update t tid (some id))

unfoldable pub create : ℕ → ℕ → ℕ → ℤ → (ℕ → Channel) → InThread → Outcome (LoopObject × InThread)
unfolding enroll
create tid id p (negsuc _) chans t = fatal
create tid id p (pos fd) chans t = elim (t tid) [
  | none ↦ enroll tid id p fd chans t
  | some _ ↦ fatal
]

unfoldable pub get_current_thread_event_loop : ℕ → InThread → Option ℕ
get_current_thread_event_loop tid t = t tid

-- The destructor, in thread `tid`.
unfoldable pub destroy : ℕ → LoopObject → InThread → Outcome (LoopObject × InThread)
destroy tid l t =
    switch_channel l.id (l.thread_tid == tid) disables_all l.wakeup_channel l.poller >>= λ w.
    remove_self l.id (l.thread_tid == tid) l.wakeup_channel w >>= λ v.
    ok (record l { poller = v; fd_closed = true }, update t tid none)
