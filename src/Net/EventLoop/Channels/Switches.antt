-- ===== src/Net/EventLoop/Channels/Switches.antt =====
-- What a channel's switches, through its loop, do to the loop's poller.
use thread_library.Prelude.{
  ℕ, ◌≡◌, refl, sym, ap, ◌∙◌, true, false, List, [], ◌∷◌, none, some, ◌⊎◌, inl, inr, arith, ==_true,
  ltb, length, Bool-cases, subst,
}
use thread_library.Prelude.Int.{ℤ, pos, negsuc}
use thread_library.Prelude.Outcome.{
  Outcome, ok, fatal, thrown, fault, Returns, Returns-mono, Returns->>=, ◌>>=◌,
}
use thread_library.Net.Channel.{Channel, enable_reading, enable_writing, disable_all}
use thread_library.Net.Poller.{Poller, update, update_at, add_channel, change_channel}
use thread_library.Net.Poller
use thread_library.Net.Poller.Consistent.{At, IsConsistent, IsNew, update_channel-IsConsistent}
use thread_library.Net.Poller.Remove.{remove_channel-Removed}
use thread_library.Net.EventLoop.Channels.{
  checked, update_channel, remove_channel, has_channel, Switch, enables_reading, enables_writing,
  disables_all, switched, switch_channel, switch_all, remove_self,
}

-- The channel is new to the poller, or stands in it.
abbrev IsReady : Poller → ℕ → Type 0
IsReady w p = IsNew w p ⊎ ((i : ℕ) × At w i p)

-- The poller with other fields in channel `p`.
abbrev touched : ℕ → Channel → Poller → Poller
touched p k w = record w { chans = update w.chans p k }

record Same (k c : Channel) : Type 0 where
  descriptor : k.fd ≡ c.fd
  index : k.poll_index ≡ c.poll_index
  loop : k.owner ≡ c.owner

module _ (w : Poller) (p : ℕ) (k : Channel) (s : Same k (w.chans p)) where
  touched-At : (i q : ℕ) → At w i q → At (touched p k w) i q
  touched-At i q a = record {
    slot = a.slot;
    there = a.there;
    key = ground (arith, a.key, s.descriptor);
    same = ground (arith, a.same, s.descriptor);
    index = ground (arith, a.index, s.index);
  }

  touched-IsConsistent : IsConsistent w → IsConsistent (touched p k w)
  touched-IsConsistent c = record {
    entries = λ i e h. let (q, a) = c.entries i e h in (q, touched-At i q a);
    keys = λ fd q h.
        let (same, (i, a)) = c.keys fd q h in
        (ground (arith, same, s.descriptor), (i, touched-At i q a));
  }

  touched-IsReady : IsReady w p → IsReady (touched p k w) p
  touched-IsReady (inl (n, f)) = inl (ground (arith, n, s.index), ground (arith, f, s.descriptor))
  touched-IsReady (inr (i, a)) = inr (i, touched-At i p a)

switched-Same : (s : Switch) (c : Channel) → Same (switched s c) c
unfolding switched enable_reading enable_writing disable_all
switched-Same (enables_reading b) c = record { descriptor = refl; index = refl; loop = refl }
switched-Same (enables_writing b) c = record { descriptor = refl; index = refl; loop = refl }
switched-Same disables_all c = record { descriptor = refl; index = refl; loop = refl }

-- Channel `p` keeps its loop and its interest in an update.
abbrev Keeps : ℕ → Poller → Outcome Poller → Type 0
Keeps p w (ok u) =
    ((u.chans p).owner ≡ (w.chans p).owner) × ((u.chans p).interested ≡ (w.chans p).interested)
Keeps p w _ = Unit

update_at-Keeps : (z : ℤ) (p : ℕ) (w : Poller) → Keeps p w (update_at z p w)
unfolding update_at add_channel change_channel
update_at-Keeps (negsuc n) p w = ground arith
update_at-Keeps (pos i) p w = elim (Bool-cases (ltb i (length w.pollfds))) [
  | inl h ↦ rw h (refl, refl)
  | inr h ↦ rw h tt
]

update_channel-Keeps : (p : ℕ) (w : Poller) → Keeps p w (Poller.update_channel p w)
unfolding Poller.update_channel
update_channel-Keeps p w = update_at-Keeps (w.chans p).poll_index p w

both :
    (p : ℕ) (w : Poller) (P : Poller → Type 0) (m : Outcome Poller)
    → Returns m P
    → Keeps p w m
    → Returns m (λ u.
      P u
      × ((u.chans p).owner ≡ (w.chans p).owner)
      × ((u.chans p).interested ≡ (w.chans p).interested))
both p w P (ok u) h k = (h, k.0, k.1)
both p w P fatal h k = absurd h
both p w P thrown h k = absurd h
both p w P fault h k = absurd h

-- What a switch leaves: a consistent poller in which the channel stands and is still the loop's.
pub record IsWatched (loop p : ℕ) (u : Poller) : Type 0 where
  pub consistent : IsConsistent u
  pub stands : (i : ℕ) × At u i p
  pub own : (u.chans p).owner ≡ loop

touched_here : (w : Poller) (p : ℕ) (k : Channel) → (touched p k w).chans p ≡ k
touched_here w p k = rw (==_true p p refl) refl

checked_own :
    (loop p : ℕ) (w : Poller) → (w.chans p).owner ≡ loop → checked loop true (some p) w ≡ ok p
unfolding checked
checked_own loop p w o = rw (==_true (w.chans p).owner loop o) refl

-- A call on a channel of the loop, in its thread, that is ready or stands in the poller, returns, keeps
-- the poller consistent with the channel in it, and leaves in the channel the interest of the switch.
pub switch_channel-IsWatched :
    (loop : ℕ) (s : Switch) (p : ℕ) (w : Poller)
    → IsConsistent w
    → IsReady w p
    → (w.chans p).owner ≡ loop
    → Returns
        (switch_channel loop true s p w)
        (λ u. IsWatched loop p u × ((u.chans p).interested ≡ (switched s (w.chans p)).interested))
unfolding switch_channel update_channel
switch_channel-IsWatched loop s p w c r o =
    let k = switched s (w.chans p) in
    let same = switched-Same s (w.chans p) in
    let t = touched p k w in
    let here = touched_here w p k in
    let own : (t.chans p).owner ≡ loop = ap (λ c. c.owner) here ∙ same.loop ∙ o in
    rw (checked_own loop p t own) (
      Returns-mono (Poller.update_channel p t) _ _
        (both p t _ _
          (update_channel-IsConsistent t p (touched-IsConsistent w p k same c)
            (touched-IsReady w p k same r))
          (update_channel-Keeps p t))
        (λ u h. (
          record { consistent = h.0.0; stands = h.0.1; own = h.1 ∙ own },
          h.2 ∙ ap (λ c. c.interested) here,
        )))

switch_all-IsWatched :
    (loop : ℕ) (ss : List Switch) (p : ℕ) (w : Poller)
    → IsWatched loop p w
    → Returns (switch_all loop true ss p w) (IsWatched loop p)
unfolding switch_all
switch_all-IsWatched loop [] p w h = h
switch_all-IsWatched loop (s ∷ ss) p w h =
    Returns->>= (switch_channel loop true s p w) (λ u. switch_all loop true ss p u) _ _
      (switch_channel-IsWatched loop s p w h.consistent (inr h.stands) h.own)
      (λ u k. switch_all-IsWatched loop ss p u k.0)

gone_lem :
    (loop p : ℕ) (u : Poller)
    → (u.chans p).owner ≡ loop
    → u.channels (u.chans p).fd ≡ none
    → has_channel loop true (some p) u ≡ ok false
unfolding has_channel Poller.has_channel
gone_lem loop p u o g = rw (checked_own loop p u o) (rw (g, Poller.has_channel) refl)

pub remove_self-clears :
    (loop p : ℕ) (w : Poller)
    → IsWatched loop p w
    → Returns
        (remove_self loop true p w)
        (λ u. IsConsistent u × (has_channel loop true (some p) u ≡ ok false))
unfolding remove_self remove_channel
remove_self-clears loop p w h =
    let k : Channel = record (w.chans p) { added_to_loop = false } in
    let same : Same k (w.chans p) = record { descriptor = refl; index = refl; loop = refl } in
    let t = touched p k w in
    let own : (t.chans p).owner ≡ loop = ap (λ c. c.owner) (touched_here w p k) ∙ h.own in
    let (i, a) = h.stands in
    rw (checked_own loop p t own) (
      Returns-mono (Poller.remove_channel p t) _ _
        (remove_channel-Removed t p i (touched-IsConsistent w p k same h.consistent)
          (touched-At w p k same i p a))
        (λ u r. (
          r.consistent,
          gone_lem loop p u (ap (λ c. c.owner) r.stale ∙ own)
              (subst (λ c. u.channels c.fd ≡ none) (sym r.stale) r.gone),
        )))

-- The life of a channel in its loop, in the loop's thread: a first switch of one that is new, any row of
-- further ones, and RemoveSelfInPoll return, leave the poller consistent, and HasChannel is false then.
pub channel_life :
    (loop : ℕ) (s : Switch) (ss : List Switch) (p : ℕ) (w : Poller)
    → IsConsistent w
    → IsNew w p
    → (w.chans p).owner ≡ loop
    → Returns
        (switch_all loop true (s ∷ ss) p w >>= λ u. remove_self loop true p u)
        (λ u. IsConsistent u × (has_channel loop true (some p) u ≡ ok false))
unfolding switch_all
channel_life loop s ss p w c n o =
    Returns->>= (switch_all loop true (s ∷ ss) p w) (λ u. remove_self loop true p u)
      (IsWatched loop p) _
      (Returns->>= (switch_channel loop true s p w) (λ u. switch_all loop true ss p u) _ _
        (switch_channel-IsWatched loop s p w c (inl n) o)
        (λ u k. switch_all-IsWatched loop ss p u k.0))
      (λ u k. remove_self-clears loop p u k)
