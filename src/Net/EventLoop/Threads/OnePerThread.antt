-- ===== src/Net/EventLoop/Threads/OnePerThread.antt =====
-- The loops of the threads.
use thread_library.Prelude.{
  ℕ, [], ◌∷◌, ◌≡◌, ◌≢◌, refl, sym, true, false, Option, none, some, ◌==◌, Bool-cases, inl, inr,
  ==_true, ==_false, subst,
}
use thread_library.Prelude.Int.{ℤ, pos, negsuc}
use thread_library.Prelude.Outcome.{ok, fatal, Returns, Returns->>=, Returns-mono, Returns-both}
use thread_library.Net.Channel.{Channel, set_read_callback, read_event, enable_reading}
use thread_library.Net.Channel
use thread_library.Net.Poller.{Poller, update}
use thread_library.Net.Poller
use thread_library.Net.Poller.Consistent.{IsConsistent, IsNew, create-IsConsistent}
use thread_library.Net.EventLoop.Channels.{
  Switch, enables_reading, disables_all, switch_channel, switched, remove_self, has_channel,
  update_channel, checked,
}
use thread_library.Net.EventLoop.Channels.Switches.{
  IsWatched, switch_channel-IsWatched, remove_self-clears,
}
use thread_library.Net.EventLoop.Threads.{
  enlisted, LoopObject, InThread, memory, enroll, create, get_current_thread_event_loop, destroy,
}

-- A loop of thread `tid`, whose poller watches its wake-up channel.
pub record IsAlive (tid : ℕ) (l : LoopObject) : Type 0 where
  pub own : l.thread_tid ≡ tid
  pub watched : IsWatched l.id l.wakeup_channel l.poller

-- What the destructor leaves: a poller that is consistent and without the channel, a closed descriptor and a
-- thread without a loop.
pub record IsGone (tid : ℕ) (l : LoopObject) (t : InThread) : Type 0 where
  pub consistent : IsConsistent l.poller
  pub removed : has_channel l.id true (some l.wakeup_channel) l.poller ≡ ok false
  pub closed : l.fd_closed ≡ true
  pub free : get_current_thread_event_loop tid t ≡ none

destroy-IsGone :
    (tid : ℕ) (l : LoopObject) (t : InThread)
    → IsAlive tid l
    → Returns (destroy tid l t) (λ d. IsGone tid d.0 d.1)
unfolding destroy get_current_thread_event_loop
destroy-IsGone tid l t a = rw (==_true l.thread_tid tid a.own) (
    Returns->>= (switch_channel l.id true disables_all l.wakeup_channel l.poller) _
      (IsWatched l.id l.wakeup_channel) _
      (Returns-mono (switch_channel l.id true disables_all l.wakeup_channel l.poller) _ _
        (switch_channel-IsWatched l.id disables_all l.wakeup_channel l.poller a.watched.consistent
          (inr a.watched.stands) a.watched.own)
        (λ w h. h.0))
      (λ w h.
        Returns->>= (remove_self l.id true l.wakeup_channel w) _ _ _
          (remove_self-clears l.id l.wakeup_channel w h)
          (λ v r. record {
            consistent = r.0;
            removed = r.1;
            closed = refl;
            free = rw (==_true tid tid refl) refl;
          })))

checked_abroad : (loop : ℕ) (c : Option ℕ) (w : Poller) → checked loop false c w ≡ fatal
unfolding checked
checked_abroad loop none w = refl
checked_abroad loop (some p) w = elim (Bool-cases ((w.chans p).owner == loop)) [
  | inl h ↦ rw h refl
  | inr h ↦ rw h refl
]

switch_channel_abroad :
    (loop : ℕ) (s : Switch) (p : ℕ) (w : Poller) → switch_channel loop false s p w ≡ fatal
unfolding switch_channel update_channel
switch_channel_abroad loop s p w = rw (checked_abroad loop) refl

destroy_abroad :
    (tid : ℕ) (l : LoopObject) (t : InThread) → tid ≢ l.thread_tid → destroy tid l t ≡ fatal
unfolding destroy
destroy_abroad tid l t d =
    rw
      (
        ==_false l.thread_tid tid (λ e. d (sym e)),
        switch_channel_abroad l.id disables_all l.wakeup_channel l.poller,
      )
      refl

create-enroll :
    (tid id p fd : ℕ) (chans : ℕ → Channel) (t : InThread)
    → t tid ≡ none
    → create tid id p (pos fd) chans t ≡ enroll tid id p fd chans t
unfolding create
create-enroll tid id p fd chans t h = rw (h, create) refl

create_again :
    (tid id p : ℕ) (answer : ℤ) (chans : ℕ → Channel) (t : InThread) (l : ℕ)
    → t tid ≡ some l
    → create tid id p answer chans t ≡ fatal
unfolding create
create_again tid id p (negsuc _) chans t l h = refl
create_again tid id p (pos fd) chans t l h = rw (h, create) refl

memory_fresh :
    (id p fd : ℕ) (chans : ℕ → Channel)
    → IsNew (Poller.create (memory id p fd chans)) p
      × (((Poller.create (memory id p fd chans)).chans p).owner ≡ id)
unfolding Poller.create Channel.create set_read_callback
memory_fresh id p fd chans = rw (==_true p p refl) ((refl, refl), refl)

-- The one entry that poll(2) is given for a loop that was just made: its wake-up descriptor, for reading.
abbrev pub wake_up_entry : ℕ → Poller.PollFd
wake_up_entry fd = record { fd = pos fd; events = 3; revents = 0 }

abbrev pub WellBorn : ℕ → ℕ → ℕ → ℕ → (ℕ → Channel) → LoopObject × InThread → Type 0
WellBorn tid other id fd chans (l, t) =
    (get_current_thread_event_loop tid t ≡ some id)
    × IsAlive tid l
    × (l.poller.pollfds ≡ wake_up_entry fd ∷ [])
    × ((later q : ℕ) (answer : ℤ) → create tid later q answer chans t ≡ fatal)
    × Returns (destroy tid l t) (λ d. IsGone tid d.0 d.1)
    × (destroy other l t ≡ fatal)

watches_wake_up :
    (id p fd : ℕ) (chans : ℕ → Channel)
    → Returns
        (switch_channel id true (enables_reading true) p (Poller.create (memory id p fd chans)))
        (λ w. w.pollfds ≡ wake_up_entry fd ∷ [])
unfolding switch_channel switched update_channel checked Poller.create Poller.update_channel
    Poller.update_at Poller.add_channel Channel.create set_read_callback Channel.enable_reading
watches_wake_up id p fd chans = simp (==_true p p refl, ==_true id id refl) refl

-- The life of a loop. In a thread that has none the constructor returns, the thread has the loop, the poller
-- watches the wake-up channel, and what it gives to poll(2) is the wake-up descriptor, for reading; a second
-- loop in that thread aborts. The destructor in that thread takes the channel from the poller, closes the
-- descriptor and leaves the thread without a loop; in any other thread it aborts.
pub loop_life :
    (tid other id p fd : ℕ) (chans : ℕ → Channel) (t : InThread)
    → t tid ≡ none
    → other ≢ tid
    → Returns (create tid id p (pos fd) chans t) (WellBorn tid other id fd chans)
unfolding get_current_thread_event_loop enroll
loop_life tid other id p fd chans t h d =
    let w0 = Poller.create (memory id p fd chans) in
    let mine : update t tid (some id) tid ≡ some id = rw (==_true tid tid refl) refl in
    let fresh = memory_fresh id p fd chans in
    subst (λ m. Returns m (WellBorn tid other id fd chans))
      (sym (create-enroll tid id p fd chans t h))
      (Returns->>= (switch_channel id true (enables_reading true) p w0) _ _
        (WellBorn tid other id fd chans)
        (Returns-both (switch_channel id true (enables_reading true) p w0) _ _
          (switch_channel-IsWatched id (enables_reading true) p w0
            (create-IsConsistent (memory id p fd chans)) (inl fresh.0) fresh.1)
          (watches_wake_up id p fd chans))
        (λ w k.
          let l : LoopObject = enlisted tid id p fd w in
          let alive : IsAlive tid l = record { own = refl; watched = k.0.0 } in
          (
            mine,
            alive,
            k.1,
            λ later q answer.
                create_again tid later q answer chans (update t tid (some id)) id mine,
            destroy-IsGone tid l (update t tid (some id)) alive,
            destroy_abroad other l (update t tid (some id)) d,
          )))
