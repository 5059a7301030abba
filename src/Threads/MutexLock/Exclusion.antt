-- ===== src/Threads/MutexLock/Exclusion.antt =====
-- What a mutex says of its holder in every interleaving of the threads.
use thread_library.Prelude.{
  ℕ, ◌<◌, ◌≡◌, ◌≢◌, refl, sym, ◌∙◌, ap, Bool, true, false, Option, none, some, ◌==◌, Bool-cases,
  inl, inr, ==_true, ==_false, ==_apart, ==_eq, subst, arith,
}
use thread_library.Threads.MutexLock.{
  MutexLock, create, is_locked_by_this_thread, assign_holder_pid, reset_holder_pid, Place, outside,
  entered, inside, leaves, will_wait, waits, woken, System, initial, moved, to, Step, locks,
  assigns, resets, unlocks, resets_to_wait, sleeps, wakes, reassigns, Reachable, starts, goes,
}

-- The places at which a thread owns the pthread mutex.
abbrev pub owns : Place → Bool
owns outside = false
owns entered = true
owns inside = true
owns leaves = true
owns will_wait = true
owns waits = false
owns woken = true

abbrev pub is_inside : Place → Bool
is_inside inside = true
is_inside _ = false

abbrev owned_by : ℕ → Option ℕ → Bool
owned_by u none = false
owned_by u (some t) = t == u

pub record IsSound (s : System) : Type 0 where
  pub owned : (u : ℕ) → owns (s.place u) ≡ owned_by u s.mutex.owner
  pub held : (u : ℕ) → 0 < u → is_locked_by_this_thread u s.mutex ≡ is_inside (s.place u)

inside_owns : (p : Place) → owns p ≡ false → is_inside p ≡ false
inside_owns outside h = refl
inside_owns entered h = refl
inside_owns inside h = h
inside_owns leaves h = refl
inside_owns will_wait h = refl
inside_owns waits h = refl
inside_owns woken h = refl

initial-IsSound : IsSound initial
unfolding initial create is_locked_by_this_thread
initial-IsSound = record { owned = λ u. refl; held = λ u z. ==_false 0 u (omega arith) }

-- The step of one thread, from what it does to that thread and to the others.
to-IsSound :
    (t : ℕ) (p : Place) (m : MutexLock) (s : System)
    → IsSound s
    → owns p ≡ owned_by t m.owner
    → is_locked_by_this_thread t m ≡ is_inside p
    → ((u : ℕ) → u ≢ t → owned_by u m.owner ≡ owned_by u s.mutex.owner)
    → ((u : ℕ) → 0 < u → u ≢ t → is_locked_by_this_thread u m ≡ is_locked_by_this_thread u s.mutex)
    → IsSound (to t p m s)
unfolding moved
to-IsSound t p m s i o h os hs = record { owned = owned; held = held }
  where
    owned : (u : ℕ) → owns (moved t p s.place u) ≡ owned_by u m.owner
    owned u = elim (Bool-cases (u == t)) [
      | inl e ↦ rw e (subst (λ v. owns p ≡ owned_by v m.owner) (sym (==_eq u t e)) o)
      | inr n ↦ rw n (i.owned u ∙ sym (os u (==_apart u t n)))
    ]

    held : (u : ℕ) → 0 < u → is_locked_by_this_thread u m ≡ is_inside (moved t p s.place u)
    held u z = elim (Bool-cases (u == t)) [
      | inl e ↦ rw e (subst (λ v. is_locked_by_this_thread v m ≡ is_inside p) (sym (==_eq u t e)) h)
      | inr n ↦ rw n (hs u z (==_apart u t n) ∙ i.held u z)
    ]

one_owner : (o : Option ℕ) (t u : ℕ) → owned_by t o ≡ true → u ≢ t → owned_by u o ≡ false
one_owner none t u h d = refl
one_owner (some v) t u h d = ==_false v u (λ e. d (sym e ∙ ==_eq v t h))

same : (o : Option ℕ) (t u : ℕ) → owned_by t o ≡ true → owned_by u o ≡ true → t ≡ u
same none t u h k = cc
same (some v) t u h k = sym (==_eq v t h) ∙ ==_eq v u k

module _ (t : ℕ) (s : System) (i : IsSound s) (o : owns (s.place t) ≡ true) where
  free_of : (u : ℕ) → u ≢ t → owned_by u s.mutex.owner ≡ false
  free_of u d = one_owner s.mutex.owner t u (sym (i.owned t) ∙ o) d

  held_elsewhere : (u : ℕ) → 0 < u → u ≢ t → is_locked_by_this_thread u s.mutex ≡ false
  held_elsewhere u z d = i.held u z ∙ inside_owns (s.place u) (i.owned u ∙ free_of u d)

-- The four kinds of steps.
gains-IsSound :
    (t : ℕ) (p : Place) (s : System)
    → 0 < t
    → IsSound s
    → is_inside (s.place t) ≡ false
    → s.mutex.owner ≡ none
    → owns p ≡ true
    → is_inside p ≡ false
    → IsSound (to t p (record s.mutex { owner = some t }) s)
unfolding is_locked_by_this_thread
gains-IsSound t p s z i w n o h =
    to-IsSound t p (record s.mutex { owner = some t }) s i (o ∙ sym (==_true t t refl))
      (i.held t z ∙ w ∙ sym h) (λ u d. ==_false t u (λ e. d (sym e)) ∙ sym (ap (owned_by u) n))
      (λ u y d. refl)

loses-IsSound :
    (t : ℕ) (p : Place) (s : System)
    → 0 < t
    → IsSound s
    → is_inside (s.place t) ≡ false
    → owns (s.place t) ≡ true
    → owns p ≡ false
    → IsSound (to t p (record s.mutex { owner = none }) s)
unfolding is_locked_by_this_thread
loses-IsSound t p s z i w n o =
    to-IsSound t p (record s.mutex { owner = none }) s i o (i.held t z ∙ w ∙ sym (inside_owns p o))
      (λ u d. sym (free_of t s i n u d)) (λ u y d. refl)

assigned-IsSound :
    (t : ℕ) (s : System)
    → IsSound s
    → owns (s.place t) ≡ true
    → IsSound (to t inside (assign_holder_pid t s.mutex) s)
unfolding is_locked_by_this_thread assign_holder_pid
assigned-IsSound t s i o =
    to-IsSound t inside (assign_holder_pid t s.mutex) s i (sym o ∙ i.owned t) (==_true t t refl)
      (λ u d. refl) (λ u z d. ==_false t u (λ e. d (sym e)) ∙ sym (held_elsewhere t s i o u z d))

reset-IsSound :
    (t : ℕ) (p : Place) (s : System)
    → 0 < t
    → IsSound s
    → owns (s.place t) ≡ true
    → owns p ≡ true
    → is_inside p ≡ false
    → IsSound (to t p (reset_holder_pid s.mutex) s)
unfolding is_locked_by_this_thread reset_holder_pid
reset-IsSound t p s z i o q h =
    to-IsSound t p (reset_holder_pid s.mutex) s i (q ∙ sym o ∙ i.owned t)
      (==_false 0 t (omega arith) ∙ sym h) (λ u d. refl)
      (λ u y d. ==_false 0 u (omega arith) ∙ sym (held_elsewhere t s i o u y d))

-- A step keeps the state sound.
Step-IsSound : (t : ℕ) (s u : System) → 0 < t → Step t s u → IsSound s → IsSound u
Step-IsSound t s _ z (locks p n) i = gains-IsSound t entered s z i (rw p refl) n refl refl
Step-IsSound t s _ z (assigns p) i = assigned-IsSound t s i (rw p refl)
Step-IsSound t s _ z (resets p) i = reset-IsSound t leaves s z i (rw p refl) refl refl
Step-IsSound t s _ z (unlocks p) i = loses-IsSound t outside s z i (rw p refl) (rw p refl) refl
Step-IsSound t s _ z (resets_to_wait p) i = reset-IsSound t will_wait s z i (rw p refl) refl refl
Step-IsSound t s _ z (sleeps p) i = loses-IsSound t waits s z i (rw p refl) (rw p refl) refl
Step-IsSound t s _ z (wakes p n) i = gains-IsSound t woken s z i (rw p refl) n refl refl
Step-IsSound t s _ z (reassigns p) i = assigned-IsSound t s i (rw p refl)

Reachable-IsSound : (s : System) → Reachable s → IsSound s
Reachable-IsSound _ starts = initial-IsSound
Reachable-IsSound s (goes {s = v} r t z d) = Step-IsSound t v s z d (Reachable-IsSound v r)

-- In every reachable state isLockedByThisThread, asked by any thread at any moment, is true exactly when
-- that thread has come out of lock or of a wait and not begun to unlock or to wait again; and two threads
-- that own the mutex are one.
pub lock_excludes :
    (s : System)
    → Reachable s
    → ((t : ℕ) → 0 < t → is_locked_by_this_thread t s.mutex ≡ is_inside (s.place t))
      × ((t u : ℕ) → owns (s.place t) ≡ true → owns (s.place u) ≡ true → t ≡ u)
lock_excludes s r = (i.held, one)
  where
    i : IsSound s
    i = Reachable-IsSound s r

    one : (t u : ℕ) → owns (s.place t) ≡ true → owns (s.place u) ≡ true → t ≡ u
    one t u ht hu = same s.mutex.owner t u (sym (i.owned t) ∙ ht) (sym (i.owned u) ∙ hu)
