-- ===== src/Threads/BlockingQueue/Order.antt =====
-- A blocking queue over any sequence of calls.
use thread_library.Prelude.{
  ◌-◌, ◌≤◌, ◌≡◌, refl, sym, ap, ◌∙◌, List, [], ◌∷◌, ◌++◌, Option, none, some, arith, length,
  length-append, append_assoc, ltb, Bool-cases, ◌⊎◌, inl, inr,
}
use thread_library.Threads.Condition.{
  Waiters, wait, notify, returned, Owes, Owes-choice, notify-Owes, rouse-Owes,
}
use thread_library.Threads.BlockingQueue.{BlockingQueue, create, put, take_from, take, take_again}

-- The calls, the steps of woken threads, and a thread that wakes on its own.
pub data Event (A : Type 0) : Type 0 where
  puts : A → Event A
  takes takes_again rouses : Event A

-- With all that was put, and all that was taken, in order.
pub record History (A : Type 0) : Type 0 where
  pub state : BlockingQueue A
  pub given : List A
  pub taken : List A

abbrev pub after_take : {A : Type 0} → History A → Option A × BlockingQueue A → History A
after_take h (none, b) = record h { state = b }
after_take h (some x, b) = record h { state = b; taken = h.taken ++ x ∷ [] }

pub occur : {A : Type 0} → Event A → History A → History A
unfolding put take take_again
occur (puts x) h = record h { state = put x h.state; given = h.given ++ x ∷ [] }
occur takes h = after_take h (take h.state)
occur takes_again h = after_take h (take_again h.state)
occur rouses h = record h { state = record h.state { not_empty = notify h.state.not_empty } }

pub run : {A : Type 0} → List (Event A) → History A → History A
unfolding occur
run [] h = h
run (e ∷ es) h = run es (occur e h)

pub record IsSound {A : Type 0} (h : History A) : Type 0 where
  pub order : h.taken ++ h.state.queue ≡ h.given
  pub awake : Owes (length h.state.queue) h.state.not_empty

take_from-IsSound :
    {A : Type 0} (g t q : List A) (w v : Waiters)
    → t ++ q ≡ g
    → Owes (length q - 1) w
    → IsSound (
        after_take
          (record { state = record { queue = q; not_empty = v }; given = g; taken = t })
          (take_from q w))
unfolding take_from wait
take_from-IsSound g t [] w v o a = record { order = o; awake = λ k. omega arith }
take_from-IsSound g t (x ∷ q) w v o a = record {
  order = append_assoc t (x ∷ []) q ∙ o;
  awake = λ k. omega (arith, a k);
}

occur-IsSound : {A : Type 0} (e : Event A) (h : History A) → IsSound h → IsSound (occur e h)
unfolding occur put take take_again
occur-IsSound (puts x) h k = record {
  order = sym (append_assoc h.taken h.state.queue (x ∷ [])) ∙ ap (λ t. t ++ x ∷ []) k.order;
  awake = λ j. omega (
    arith,
    length-append h.state.queue (x ∷ []),
    notify-Owes (length h.state.queue) h.state.not_empty k.awake j,
  );
}
occur-IsSound takes h k =
    take_from-IsSound h.given h.taken h.state.queue h.state.not_empty h.state.not_empty k.order
      (λ j. omega (arith, k.awake j))
occur-IsSound takes_again h k = elim (Bool-cases (ltb 0 h.state.not_empty.woken)) [
  | inl e ↦ rw e (
      take_from-IsSound h.given h.taken h.state.queue (returned h.state.not_empty) h.state.not_empty
        k.order (λ j. omega (arith, k.awake j)))
  | inr e ↦ rw e k
]
occur-IsSound rouses h k = record {
  order = k.order;
  awake = rouse-Owes (length h.state.queue) h.state.not_empty k.awake;
}

run-IsSound : {A : Type 0} (es : List (Event A)) (h : History A) → IsSound h → IsSound (run es h)
unfolding run
run-IsSound [] h k = k
run-IsSound (e ∷ es) h k = run-IsSound es (occur e h) (occur-IsSound e h k)

pub fresh : {A : Type 0} → History A
unfolding create
fresh = record { state = create; given = []; taken = [] }

-- After any sequence of calls on a new queue, what was taken and what is in the queue are what was put, in
-- this order; and no thread sleeps in `take`, or as many woken threads as there are elements have yet to go on
-- there.
pub takes_in_order :
    {A : Type 0} (es : List (Event A))
    → let h = run es fresh in
      (h.taken ++ h.state.queue ≡ h.given)
      × ((h.state.not_empty.sleeping ≡ 0) ⊎ (length h.state.queue ≤ h.state.not_empty.woken))
unfolding fresh create
takes_in_order es =
    let h = run es fresh in
    let k : IsSound h =
      run-IsSound es fresh (record { order = refl; awake = λ j. absurd (omega (arith, j)) }) in
    (k.order, Owes-choice (length h.state.queue) h.state.not_empty k.awake)
