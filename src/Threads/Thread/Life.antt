-- ===== src/Threads/Thread/Life.antt =====
-- What becomes of the thread that a Thread starts.
use thread_library.Prelude.{
  ℕ, ◌≡◌, refl, ap, Bool, true, false, List, [], ◌∷◌, ◌++◌, Option, none, some,
}
use thread_library.Prelude.Outcome.{Outcome, ok, fatal, thrown, fault, Returns, ◌>>=◌}
use thread_library.Threads.Thread.{
  Effect, created, joined_with, detached, Thread, create, start, join, destroy, Call, starts, joins,
  call, calls,
}

-- How a Thread may be used: it is started with success once, and joined once at most, after that.
pub data Stage : Type 0 where
  unstarted running over : Stage

abbrev follow : Call → Stage → Option Stage
follow (starts none) unstarted = some unstarted
follow (starts (some id)) unstarted = some running
follow (starts answer) running = some running
follow (starts answer) over = some over
follow joins unstarted = none
follow joins running = some over
follow joins over = none

abbrev pub follow_all : List Call → Stage → Option Stage
follow_all [] s = some s
follow_all (c ∷ cs) s = elim (follow c s) [ none ↦ none | some t ↦ follow_all cs t ]

abbrev is_started : Stage → Bool
is_started unstarted = false
is_started running = true
is_started over = true

abbrev is_joined : Stage → Bool
is_joined unstarted = false
is_joined running = false
is_joined over = true

abbrev so_far : Stage → ℕ → List Effect
so_far unstarted id = []
so_far running id = created id ∷ []
so_far over id = created id ∷ joined_with id ∷ []

-- All that pthread was asked by the end of the destructor.
abbrev pub in_all : Stage → ℕ → List Effect
in_all unstarted id = []
in_all running id = created id ∷ detached id ∷ []
in_all over id = created id ∷ joined_with id ∷ []

record Stands (s : Stage) (t : Thread) : Type 0 where
  started : t.started ≡ is_started s
  joined : t.joined ≡ is_joined s
  trace : t.trace ≡ so_far s t.pthread_id

abbrev pub Matches : (Stage → Thread → Type 0) → Option Stage → Outcome Thread → Type 0
Matches P none m = m ≡ fault
Matches P (some s) m = Returns m (P s)

call-Matches :
    (c : Call) (s : Stage) (t : Thread) → Stands s t → Matches Stands (follow c s) (call c t)
unfolding call start join
call-Matches (starts none) unstarted t h =
    rw h.started (record { started = refl; joined = h.joined; trace = h.trace })
call-Matches (starts (some id)) unstarted t h =
    rw h.started
      (record { started = refl; joined = h.joined; trace = ap (λ x. x ++ created id ∷ []) h.trace })
call-Matches (starts answer) running t h =
    rw h.started (record { started = refl; joined = h.joined; trace = h.trace })
call-Matches (starts answer) over t h =
    rw h.started (record { started = refl; joined = h.joined; trace = h.trace })
call-Matches joins unstarted t h = rw h.started refl
call-Matches joins running t h = rw h.started (
    rw h.joined (record {
      started = refl;
      joined = refl;
      trace = ap (λ x. x ++ joined_with t.pthread_id ∷ []) h.trace;
    }))
call-Matches joins over t h = rw h.started (rw h.joined refl)

then-Matches :
    (cs : List Call) (s : Option Stage) (m : Outcome Thread)
    → Matches Stands s m
    → ((u : Stage) (t : Thread) → Stands u t → Matches Stands (follow_all cs u) (calls cs t))
    → Matches Stands (elim s [ none ↦ none | some u ↦ follow_all cs u ]) (m >>= calls cs)
then-Matches cs none m h k = rw h refl
then-Matches cs (some u) (ok t) h k = k u t h
then-Matches cs (some u) fatal h k = absurd h
then-Matches cs (some u) thrown h k = absurd h
then-Matches cs (some u) fault h k = absurd h

calls-Matches :
    (cs : List Call) (s : Stage) (t : Thread)
    → Stands s t
    → Matches Stands (follow_all cs s) (calls cs t)
unfolding calls
calls-Matches [] s t h = h
calls-Matches (c ∷ cs) s t h =
    then-Matches cs (follow c s) (call c t) (call-Matches c s t h) (calls-Matches cs)

destroy_lem : (s : Stage) (t : Thread) → Stands s t → (destroy t).trace ≡ in_all s t.pthread_id
unfolding destroy
destroy_lem unstarted t h = rw h.started h.trace
destroy_lem running t h =
    rw h.started (rw h.joined (ap (λ x. x ++ detached t.pthread_id ∷ []) h.trace))
destroy_lem over t h = rw h.started (rw h.joined h.trace)

Matches-map :
    (P Q : Stage → Thread → Type 0)
    → ((s : Stage) (t : Thread) → P s t → Q s t)
    → (s : Option Stage) (m : Outcome Thread) → Matches P s m
    → Matches Q s m
Matches-map P Q f none m h = h
Matches-map P Q f (some s) (ok t) h = f s t h
Matches-map P Q f (some s) fatal h = absurd h
Matches-map P Q f (some s) thrown h = absurd h
Matches-map P Q f (some s) fault h = absurd h

-- A Thread leaves no thread behind. Any sequence of calls on a new Thread is a fault if it joins a thread that
-- was not started with success or was joined before; otherwise it returns, and by the end of the destructor
-- pthread was asked for no thread, or for one, which was joined if it was told to and detached if not, once.
pub calls-Matches_life :
    (cs : List Call) (name : List ℕ)
    → Matches
        (λ s t. (destroy t).trace ≡ in_all s t.pthread_id)
        (follow_all cs unstarted)
        (calls cs (create name))
unfolding create
calls-Matches_life cs name =
    Matches-map Stands _ destroy_lem (follow_all cs unstarted) (calls cs (create name)) (
      calls-Matches cs unstarted (create name)
        (record { started = refl; joined = refl; trace = refl }))
