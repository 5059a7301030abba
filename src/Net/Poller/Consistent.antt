-- ===== src/Net/Poller/Consistent.antt =====
-- The invariant of a Poller: its entries, its map and the indices in the channels agree.
use thread_library.Prelude.{
  ℕ, zero, suc, ◌<◌, ◌≡◌, ◌≢◌, refl, sym, ap, ◌∙◌, subst, ◌⊎◌, inl, inr, List, [], ◌∷◌, ◌++◌, none,
  some, arith, length, get_elem?, set, length-append, lt→ltb, ℕ_discrete, dec_lt,
}
use thread_library.Prelude.Int.{pos, negsuc}
use thread_library.Prelude.Outcome.{Returns}
use thread_library.Net.Channel.{Channel, is_none_event}
use thread_library.Net.Poller.{
  PollFd, Poller, create, real_fd, watched, entry, add_channel, change_channel, update_at,
  update_channel, set_poll_index,
}

-- A channel that stands at an index of the list.
pub record At (w : Poller) (i p : ℕ) : Type 0 where
  pub slot : PollFd
  pub there : get_elem? w.pollfds i ≡ some slot
  pub key : w.channels (w.chans p).fd ≡ some p
  pub same : real_fd slot.fd ≡ (w.chans p).fd
  pub index : (w.chans p).poll_index ≡ pos i

pub record IsConsistent (w : Poller) : Type 0 where
  -- Every entry is that of a registered channel, and every registered channel has its entry.
  pub entries : (i : ℕ) (e : PollFd) → get_elem? w.pollfds i ≡ some e → (p : ℕ) × At w i p
  pub keys : (fd p : ℕ) → w.channels fd ≡ some p → ((w.chans p).fd ≡ fd) × ((i : ℕ) × At w i p)

pub get_elem?-lt {ℓ} :
    {A : Type ℓ} (xs : List A) (i : ℕ) {a : A} → get_elem? xs i ≡ some a → i < length xs
get_elem?-lt [] i e = cc
get_elem?-lt (x ∷ xs) zero e = omega arith
get_elem?-lt (x ∷ xs) (suc i) e = omega (arith, get_elem?-lt xs i e)

get_elem?-append_last {ℓ} :
    {A : Type ℓ} (xs : List A) (a : A) → get_elem? (xs ++ a ∷ []) (length xs) ≡ some a
get_elem?-append_last [] a = refl
get_elem?-append_last (x ∷ xs) a = get_elem?-append_last xs a

get_elem?-append_left {ℓ} :
    {A : Type ℓ} (xs : List A) (a : A) (i : ℕ)
    → i < length xs
    → get_elem? (xs ++ a ∷ []) i ≡ get_elem? xs i
get_elem?-append_left [] a i h = absurd (omega arith)
get_elem?-append_left (x ∷ xs) a zero h = refl
get_elem?-append_left (x ∷ xs) a (suc i) h = get_elem?-append_left xs a i (omega arith)

pub get_elem?-set_self {ℓ} :
    {A : Type ℓ} (xs : List A) (i : ℕ) (v : A) → i < length xs → get_elem? (set xs i v) i ≡ some v
get_elem?-set_self [] i v h = absurd (omega arith)
get_elem?-set_self (x ∷ xs) zero v h = refl
get_elem?-set_self (x ∷ xs) (suc i) v h = get_elem?-set_self xs i v (omega arith)

pub get_elem?-set_ne {ℓ} :
    {A : Type ℓ} (xs : List A) (i j : ℕ) (v : A) → i ≢ j → get_elem? (set xs i v) j ≡ get_elem? xs j
get_elem?-set_ne [] i j v h = refl
get_elem?-set_ne (x ∷ xs) zero zero v h = absurd (h refl)
get_elem?-set_ne (x ∷ xs) zero (suc j) v h = refl
get_elem?-set_ne (x ∷ xs) (suc i) zero v h = refl
get_elem?-set_ne (x ∷ xs) (suc i) (suc j) v h = get_elem?-set_ne xs i j v (λ e. h (ap suc e))

pub create-IsConsistent : (chans : ℕ → Channel) → IsConsistent (create chans)
unfolding create
create-IsConsistent chans = record { entries = λ i e h. cc; keys = λ fd p h. cc }

-- A channel may be added if it has no index and no other channel has its descriptor.
abbrev pub IsNew : Poller → ℕ → Type 0
IsNew w p = ((w.chans p).poll_index ≡ negsuc 0) × (w.channels (w.chans p).fd ≡ none)

module _ (w : Poller) (p : ℕ) (c : IsConsistent w) (fresh : IsNew w p) where
  -- A channel that stood at an index stands there still.
  add-At : (i q : ℕ) → At w i q → At (add_channel p w) i q
  unfolding add_channel
  add-At i q a = record {
    slot = a.slot;
    there = get_elem?-append_left w.pollfds _ i (get_elem?-lt w.pollfds i a.there) ∙ a.there;
    key = ground (arith, a.key, a.index);
    same = ground (arith, a.same, a.index);
    index = ground (arith, a.index);
  }

  -- The new channel stands at the end.
  add-At_new : At (add_channel p w) (length w.pollfds) p
  unfolding add_channel
  add-At_new = record {
    slot = watched (w.chans p);
    there = get_elem?-append_last w.pollfds (watched (w.chans p));
    key = ground arith;
    same = ground arith;
    index = ground arith;
  }

  add-entries :
      (i : ℕ) (e : PollFd)
      → get_elem? (add_channel p w).pollfds i ≡ some e
      → (q : ℕ) × At (add_channel p w) i q
  unfolding add_channel
  add-entries i e h = elim (dec_lt i (length w.pollfds)) [
    | yes old ↦
        (let (q, a) = c.entries i e (sym (get_elem?-append_left w.pollfds _ i old) ∙ h) in
          (q, add-At i q a))
    | no new ↦
        (let last : length w.pollfds ≡ i =
            omega (arith, get_elem?-lt _ i h, length-append w.pollfds (watched (w.chans p) ∷ [])) in
          (p, subst (λ k. At (add_channel p w) k p) last add-At_new))
  ]

  add-keys :
      (fd q : ℕ)
      → (add_channel p w).channels fd ≡ some q
      → (((add_channel p w).chans q).fd ≡ fd) × ((i : ℕ) × At (add_channel p w) i q)
  unfolding add_channel
  add-keys fd q h = elim (ℕ_discrete (w.chans p).fd fd) [
    | yes mine ↦
        (let e : p ≡ q = ground (arith, mine, h) in
          (
            subst (λ r. (set_poll_index w.chans p (length w.pollfds) r).fd ≡ fd) e
                (ground (arith, mine)),
            (length w.pollfds, subst (At (add_channel p w) (length w.pollfds)) e add-At_new),
          ))
    | no other ↦
        (let old = c.keys fd q (ground (arith, other, h)) in
          (ground (arith, old.0), (old.1.0, add-At old.1.0 q old.1.1)))
  ]

  add-IsConsistent : IsConsistent (add_channel p w)
  add-IsConsistent = record { entries = add-entries; keys = add-keys }

-- An index is that of one channel only, and a channel has one index.
pub At-unique : (w : Poller) (i p q : ℕ) → At w i p → At w i q → p ≡ q
At-unique w i p q a b =
    let s : a.slot ≡ b.slot = ground (arith, a.there, b.there) in
    let k : (w.chans p).fd ≡ (w.chans q).fd = sym a.same ∙ ap (λ t. real_fd t.fd) s ∙ b.same in
    ground (arith, a.key, b.key, ap w.channels k)

pub At-index : (w : Poller) (i j p : ℕ) → At w i p → At w j p → i ≡ j
At-index w i j p a b = ground (arith, a.index, b.index)

module _ (w : Poller) (p i : ℕ) (c : IsConsistent w) (a : At w i p) where
  changed : Poller
  changed = record w { pollfds = set w.pollfds i (entry (w.chans p)) }

  real_fd-entry : (k : Channel) → real_fd (entry k).fd ≡ k.fd
  unfolding entry is_none_event
  real_fd-entry k = ground arith

  change-At : (j q : ℕ) → At w j q → At changed j q
  unfolding changed
  change-At j q b = elim (ℕ_discrete i j) [
    | yes here ↦
        (let e : p ≡ q = At-unique w i p q a (subst (λ k. At w k q) (sym here) b) in
          record {
            slot = entry (w.chans p);
            there =
                subst
                  (λ k.
                    get_elem? (set w.pollfds i (entry (w.chans p))) k ≡ some (entry (w.chans p)))
                  here (get_elem?-set_self w.pollfds i _ (get_elem?-lt w.pollfds i a.there));
            key = b.key;
            same = real_fd-entry (w.chans p) ∙ ap (λ r. (w.chans r).fd) e;
            index = b.index;
          })
    | no other ↦ record {
      slot = b.slot;
      there = get_elem?-set_ne w.pollfds i j _ other ∙ b.there;
      key = b.key;
      same = b.same;
      index = b.index;
    }
  ]

  change-entries :
      (j : ℕ) (e : PollFd) → get_elem? changed.pollfds j ≡ some e → (q : ℕ) × At changed j q
  unfolding changed
  change-entries j e h = elim (ℕ_discrete i j) [
    | yes here ↦ (p, subst (λ k. At changed k p) here (change-At i p a))
    | no other ↦
        (let (q, b) = c.entries j e (sym (get_elem?-set_ne w.pollfds i j _ other) ∙ h) in
          (q, change-At j q b))
  ]

  changed-IsConsistent : IsConsistent changed
  unfolding changed
  changed-IsConsistent = record {
    entries = change-entries;
    keys = λ fd q h. let (same, (j, b)) = c.keys fd q h in (same, (j, change-At j q b));
  }

-- `UpdateChannel` of a new channel, or of one that is registered, returns and keeps the poller
-- consistent, with the channel registered.
pub update_channel-IsConsistent :
    (w : Poller) (p : ℕ)
    → IsConsistent w
    → IsNew w p ⊎ ((i : ℕ) × At w i p)
    → Returns (update_channel p w) (λ u. IsConsistent u × ((i : ℕ) × At u i p))
unfolding update_channel update_at change_channel changed
update_channel-IsConsistent w p c (inl fresh) =
    rw (fresh.0, update_at)
      (add-IsConsistent w p c fresh, (length w.pollfds, add-At_new w p c fresh))
update_channel-IsConsistent w p c (inr (i, a)) =
    rw (a.index, update_at, lt→ltb _ _ (get_elem?-lt w.pollfds i a.there))
      (changed-IsConsistent w p i c a, (i, change-At w p i c a i p a))
