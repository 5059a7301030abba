-- ===== src/Net/Poller/Remove.antt =====
-- `RemoveChannel`, and what it does to the invariant and to the removed channel.
use thread_library.Prelude.{
  ℕ, zero, suc, ◌-◌, ◌<◌, ◌≡◌, ◌≢◌, refl, sym, ap, ◌∙◌, subst, List, [], ◌∷◌, none, some, arith,
  length, get_elem?, set, length-set, ltb, lt→ltb, if◌then◌else◌, ℕ_discrete, true, ltb→lt, ==_true,
  ==_false,
}
use thread_library.Prelude.Int.{pos}
use thread_library.Prelude.Outcome.{ok, fault, Returns}
use thread_library.Net.Channel.{Channel, is_none_event}
use thread_library.Net.Poller.{
  PollFd, Poller, update, real_fd, pop_back, set_poll_index, update_at, update_channel, reindex,
  remove_entry, remove_at, remove_channel, change_channel, entry,
}
use thread_library.Net.Poller.Consistent.{
  At, IsConsistent, At-unique, At-index, get_elem?-lt, get_elem?-set_self, get_elem?-set_ne,
}

get_elem?-total {ℓ} :
    {A : Type ℓ} (xs : List A) (i : ℕ) → i < length xs → (a : A) × (get_elem? xs i ≡ some a)
get_elem?-total [] i h = absurd (omega arith)
get_elem?-total (x ∷ xs) zero h = (x, refl)
get_elem?-total (x ∷ xs) (suc i) h = get_elem?-total xs i (omega arith)

length-pop_back {ℓ} : {A : Type ℓ} (xs : List A) → length (pop_back xs) ≡ length xs - 1
length-pop_back [] = omega arith
length-pop_back (x ∷ []) = omega arith
length-pop_back (x ∷ y ∷ xs) = omega (arith, length-pop_back (y ∷ xs))

get_elem?-pop_back {ℓ} :
    {A : Type ℓ} (xs : List A) (i : ℕ)
    → i < length xs - 1
    → get_elem? (pop_back xs) i ≡ get_elem? xs i
get_elem?-pop_back [] i h = absurd (omega arith)
get_elem?-pop_back (x ∷ []) i h = absurd (omega arith)
get_elem?-pop_back (x ∷ y ∷ xs) zero h = refl
get_elem?-pop_back (x ∷ y ∷ xs) (suc i) h = get_elem?-pop_back (y ∷ xs) i (omega arith)

module _ (w : Poller) (p i : ℕ) (c : IsConsistent w) (a : At w i p) where
  n : ℕ
  n = length w.pollfds

  i-lt : i < length w.pollfds
  i-lt = get_elem?-lt w.pollfds i a.there

  -- Another channel has another index and another descriptor.
  other_fd : (j q : ℕ) → i ≢ j → At w j q → (p ≢ q) × ((w.chans p).fd ≢ (w.chans q).fd)
  other_fd j q ne b = (differ, λ e. differ (ground (arith, a.key, b.key, ap w.channels e)))
    where
      differ : p ≢ q
      differ e = ne (ground (arith, a.index, b.index, ap (λ r. (w.chans r).poll_index) e))

  dropped : Poller
  dropped = record w {
    channels = update w.channels (w.chans p).fd none;
    pollfds = pop_back w.pollfds;
  }

  drop-At : (j q : ℕ) → j < length w.pollfds - 1 → i ≢ j → At w j q → At dropped j q
  unfolding dropped
  drop-At j q small ne b =
      let o = other_fd j q ne b in
      record {
        slot = b.slot;
        there = get_elem?-pop_back w.pollfds j small ∙ b.there;
        key = ground (arith, b.key, o.1);
        same = b.same;
        index = b.index;
      }

  drop-entries :
      i ≡ length w.pollfds - 1
      → (j : ℕ) (e : PollFd) → get_elem? dropped.pollfds j ≡ some e
      → (q : ℕ) × At dropped j q
  unfolding dropped
  drop-entries last j e h =
      let small : j < length w.pollfds - 1 =
        omega (arith, get_elem?-lt _ j h, length-pop_back w.pollfds) in
      let (q, b) = c.entries j e (sym (get_elem?-pop_back w.pollfds j small) ∙ h) in
      (q, drop-At j q small (λ k. omega arith) b)

  -- A key that is left belongs to another channel at another index.
  left_key :
      (fd q : ℕ)
      → update w.channels (w.chans p).fd none fd ≡ some q
      → ((w.chans q).fd ≡ fd) × ((j : ℕ) × At w j q × (i ≢ j))
  left_key fd q h =
      let differ : (w.chans p).fd ≢ fd = ground (arith, h) in
      let old = c.keys fd q (ground (arith, h)) in
      (
        old.0,
        (
          old.1.0,
          old.1.1,
          λ e. differ (
              ap (λ r. (w.chans r).fd) (At-unique w i p q a (subst (λ k. At w k q) (sym e) old.1.1))
              ∙ old.0),
        ),
      )

  drop-keys :
      i ≡ length w.pollfds - 1
      → (fd q : ℕ) → dropped.channels fd ≡ some q
      → ((dropped.chans q).fd ≡ fd) × ((j : ℕ) × At dropped j q)
  unfolding dropped
  drop-keys last fd q h =
      let (same, (j, b, ne)) = left_key fd q h in
      (same, (j, drop-At j q (omega (arith, get_elem?-lt w.pollfds j b.there, ne)) ne b))

  dropped-IsConsistent : i ≡ length w.pollfds - 1 → IsConsistent dropped
  dropped-IsConsistent last = record { entries = drop-entries last; keys = drop-keys last }

module _ (w : Poller) (p i q : ℕ) (c : IsConsistent w) (a : At w i p)
    (b : At w (length w.pollfds - 1) q) (inner : i ≢ length w.pollfds - 1) where
  moved : Poller
  moved = record w {
    channels = update w.channels (w.chans p).fd none;
    pollfds = pop_back (set w.pollfds i b.slot);
    chans = set_poll_index w.chans q i;
  }

  short : length (set w.pollfds i b.slot) ≡ length w.pollfds
  short = length-set w.pollfds i b.slot

  i-small : i < length w.pollfds - 1
  i-small = omega (arith, get_elem?-lt w.pollfds i a.there, inner)

  -- The last channel stands at the place that became free.
  moved-At_last : At moved i q
  unfolding moved
  moved-At_last =
      let o = other_fd w p i c a (length w.pollfds - 1) q inner b in
      record {
        slot = b.slot;
        there =
            get_elem?-pop_back (set w.pollfds i b.slot) i (omega (arith, short, i-small))
            ∙ get_elem?-set_self w.pollfds i b.slot (omega (arith, i-small));
        key = ground (arith, b.key, o.1);
        same = ground (arith, b.same);
        index = ground arith;
      }

  moved-At : (j r : ℕ) → i ≢ j → j < length w.pollfds - 1 → At w j r → At moved j r
  unfolding moved
  moved-At j r ne small d =
      let o = other_fd w p i c a j r ne d in
      let u : q ≢ r =
        λ e. not_last (At-index w _ j r (subst (At w (length w.pollfds - 1)) e b) d) in
      record {
        slot = d.slot;
        there =
            get_elem?-pop_back (set w.pollfds i b.slot) j (omega (arith, short, small))
            ∙ get_elem?-set_ne w.pollfds i j b.slot ne
            ∙ d.there;
        key = ground (arith, d.key, o.1, u);
        same = ground (arith, d.same, u);
        index = ground (arith, d.index, u);
      }
    where
      not_last : length w.pollfds - 1 ≢ j
      not_last e = omega arith

  moved-entries : (j : ℕ) (e : PollFd) → get_elem? moved.pollfds j ≡ some e → (r : ℕ) × At moved j r
  unfolding moved
  moved-entries j e h =
      let small : j < length w.pollfds - 1 =
        omega (arith, get_elem?-lt _ j h, length-pop_back (set w.pollfds i b.slot), short) in
      elim (ℕ_discrete i j) [
        | yes here ↦ (q, subst (λ k. At moved k q) here moved-At_last)
        | no other ↦
            (let (r, d) = c.entries j e (
                sym (get_elem?-set_ne w.pollfds i j b.slot other)
                ∙ sym (get_elem?-pop_back (set w.pollfds i b.slot) j (omega (arith, small, short)))
                ∙ h) in
              (r, moved-At j r other small d))
      ]

  moved-keys :
      (fd r : ℕ) → moved.channels fd ≡ some r → ((moved.chans r).fd ≡ fd) × ((j : ℕ) × At moved j r)
  unfolding moved
  moved-keys fd r h =
      let (same, (j, d, ne)) = left_key w p i c a fd r h in
      elim (ℕ_discrete j (length w.pollfds - 1)) [
        | yes last ↦
            (let e : q ≡ r = At-unique w _ q r b (subst (λ k. At w k r) last d) in
              (ground (arith, same), (i, subst (At moved i) e moved-At_last)))
        | no before ↦ (
          ground (arith, same),
          (j, moved-At j r ne (omega (arith, get_elem?-lt w.pollfds j d.there, before)) d),
        )
      ]

  moved-IsConsistent : IsConsistent moved
  moved-IsConsistent = record { entries = moved-entries; keys = moved-keys }

-- What `RemoveChannel` leaves: a consistent poller without the channel, one entry fewer, and the
-- channel's own index as it was.
pub record Removed (w : Poller) (p i : ℕ) (u : Poller) : Type 0 where
  pub consistent : IsConsistent u
  pub gone : u.channels (w.chans p).fd ≡ none
  pub shorter : length u.pollfds ≡ length w.pollfds - 1
  pub stale : u.chans p ≡ w.chans p

-- `RemoveChannel` of a registered channel returns, and what it leaves is as `Removed` says.
pub remove_channel-Removed :
    (w : Poller) (p i : ℕ)
    → IsConsistent w
    → At w i p
    → Returns (remove_channel p w) (Removed w p i)
unfolding remove_channel remove_at remove_entry reindex dropped moved
remove_channel-Removed w p i c a =
    rw (a.index, remove_at, lt→ltb _ _ lt, there, remove_entry)
      (elim (ℕ_discrete i (length w.pollfds - 1)) [
        | yes last ↦ rw (==_true i _ last) (record {
          consistent = dropped-IsConsistent w p i c a last;
          gone = ground arith;
          shorter = length-pop_back w.pollfds;
          stale = refl;
        })
        | no inner ↦ rw (==_false i _ inner) (swapped inner)
      ])
  where
    lt : i < length w.pollfds
    lt = get_elem?-lt w.pollfds i a.there

    end : (q : ℕ) × At w (length w.pollfds - 1) q
    end =
        let (e, h) = get_elem?-total w.pollfds (length w.pollfds - 1) (omega (arith, lt)) in
        c.entries (length w.pollfds - 1) e h

    q : ℕ
    q = end.0

    b : At w (length w.pollfds - 1) q
    b = end.1

    there : get_elem? w.pollfds (length w.pollfds - 1) ≡ some b.slot
    there = b.there

    swapped :
        i ≢ length w.pollfds - 1
        → Returns
            (reindex (update w.channels (w.chans p).fd none (real_fd b.slot.fd)) i (record w {
              channels = update w.channels (w.chans p).fd none;
              pollfds = pop_back (set w.pollfds i b.slot);
            }))
            (Removed w p i)
    swapped inner =
        let o = other_fd w p i c a (length w.pollfds - 1) q inner b in
        let k : update w.channels (w.chans p).fd none (real_fd b.slot.fd) ≡ some q =
          ground (arith, b.key, o.1, b.same) in
        rw (k, reindex)
          (record {
            consistent = moved-IsConsistent w p i q c a b inner;
            gone = ground arith;
            shorter =
                omega
                  (arith, length-pop_back (set w.pollfds i b.slot), length-set w.pollfds i b.slot);
            stale = ground (arith, o.0);
          })

entry_fd : (k : Channel) → real_fd (entry k).fd ≡ k.fd
unfolding entry is_none_event
entry_fd k = ground arith

-- A channel that has an index and is not registered must not be updated: the update is out of range, or
-- it overwrites the entry of another channel, and the poller is consistent no more.
pub stale_update :
    (u v : Poller) (p i : ℕ)
    → (u.chans p).poll_index ≡ pos i
    → u.channels (u.chans p).fd ≡ none
    → update_channel p u ≡ ok v
    → ¬ IsConsistent v
unfolding update_channel update_at change_channel
stale_update u v p i index gone updated whole = absurd_key
  where
    step :
        (if ltb i (length u.pollfds)
          then ok (record u { pollfds = set u.pollfds i (entry (u.chans p)) })
          else fault)
        ≡ ok v
    step = ap (λ k. update_at k p u) (sym index) ∙ updated

    inside : ltb i (length u.pollfds) ≡ true
    inside = ground (arith, step)

    v-eq : v ≡ record u { pollfds = set u.pollfds i (entry (u.chans p)) }
    v-eq = ground (arith, step, inside)

    slot : get_elem? v.pollfds i ≡ some (entry (u.chans p))
    slot =
        ap (λ k. get_elem? k.pollfds i) v-eq
        ∙ get_elem?-set_self u.pollfds i (entry (u.chans p)) (ltb→lt _ _ inside)

    absurd_key : ⊥
    absurd_key =
        let (q, b) = whole.entries i (entry (u.chans p)) slot in
        let same : b.slot ≡ entry (u.chans p) = ground (arith, b.there, slot) in
        let fd : (v.chans q).fd ≡ (u.chans p).fd =
          sym b.same ∙ ap (λ k. real_fd k.fd) same ∙ entry_fd (u.chans p) in
        let none_left : v.channels (u.chans p).fd ≡ none =
          ap (λ k. k.channels (u.chans p).fd) v-eq ∙ gone in
        (let clash : none ≡ some q = sym none_left ∙ ap v.channels (sym fd) ∙ b.key in cc)
