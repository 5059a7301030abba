-- ===== src/Threads/ThreadPool/Order.antt =====
-- Sequences of steps of the callers and the threads of a pool.
use thread_library.Prelude.{
  ℕ, ◌+◌, ◌≤◌, ◌<◌, ◌≡◌, refl, sym, ap, subst, ◌∙◌, false, ◌&&◌, List, [], ◌∷◌, ◌++◌, Option, none,
  some, arith, length, length-append, leb, lt→ltb, Bool-cases, inl, inr, append_assoc, ◌==◌,
}
use thread_library.Threads.ThreadPool.{
  ThreadPool, create, start, stop, is_full, Entry, waits, enters, take_from, take, Place, ran,
  queued, run_task,
}

-- The pool, the tasks that were ever queued, and those that its threads took, in order.
pub record History (A : Type 0) : Type 0 where
  pub pool : ThreadPool A
  pub submitted : List A
  pub taken : List A

pub data Event (A : Type 0) : Type 0 where
  submits : A → Event A
  takes : Event A
  starts : ℕ → Event A
  stops : Event A

abbrev after_submit : {A : Type 0} → A → History A → Entry A Place → History A
after_submit t h waits = h
after_submit t h (enters ran p) = record h { pool = p }
after_submit t h (enters queued p) = record h { pool = p; submitted = h.submitted ++ t ∷ [] }

abbrev after_take : {A : Type 0} → History A → Entry A (Option A) → History A
after_take h waits = h
after_take h (enters none p) = record h { pool = p }
after_take h (enters (some t) p) = record h { pool = p; taken = h.taken ++ t ∷ [] }

-- A thread that waits changes nothing.
pub occur : {A : Type 0} → Event A → History A → History A
unfolding run_task take start stop
occur (submits t) h = after_submit t h (run_task t h.pool)
occur takes h = after_take h (take h.pool)
occur (starts n) h = record h { pool = start n h.pool }
occur stops h = record h { pool = stop h.pool }

pub run : {A : Type 0} → List (Event A) → History A → History A
unfolding occur
run [] h = h
run (e ∷ es) h = run es (occur e h)

-- Every task that was queued was taken or is in the queue, in order, and a queue with a limit keeps it.
pub record IsOrdered {A : Type 0} (h : History A) : Type 0 where
  pub order : h.taken ++ h.pool.queue ≡ h.submitted
  pub limit : 0 < h.pool.max_queue_size → length h.pool.queue ≤ h.pool.max_queue_size

limit_grows :
    {A : Type 0} (t : A) (p : ThreadPool A)
    → is_full p ≡ false
    → 0 < p.max_queue_size
    → length (p.queue ++ t ∷ []) ≤ p.max_queue_size
unfolding is_full
limit_grows t p room pos_max =
    let unlocked : leb p.max_queue_size (length p.queue) ≡ false =
      subst (λ b. (b && leb p.max_queue_size (length p.queue)) ≡ false) (lt→ltb _ _ pos_max) room in
    let longer : length (p.queue ++ t ∷ []) ≡ length p.queue + 1 = length-append p.queue (t ∷ []) in
    ground arith

submits-IsOrdered :
    {A : Type 0} (t : A) (h : History A) → IsOrdered h → IsOrdered (occur (submits t) h)
unfolding occur run_task
submits-IsOrdered t h k = elim (Bool-cases (h.pool.threads == 0)) [
  | inl e ↦ rw e k
  | inr e ↦ rw e (elim (Bool-cases (is_full h.pool)) [
    | inl f ↦ rw f k
    | inr f ↦ rw f (record {
      order = sym (append_assoc h.taken h.pool.queue (t ∷ [])) ∙ ap (λ q. q ++ t ∷ []) k.order;
      limit = limit_grows t h.pool f;
    })
  ])
]

takes-IsOrdered :
    {A : Type 0} (q : List A) (p : ThreadPool A) (s d : List A)
    → IsOrdered (record { pool = record p { queue = q }; submitted = s; taken = d })
    → IsOrdered (occur takes (record { pool = record p { queue = q }; submitted = s; taken = d }))
unfolding occur take take_from
takes-IsOrdered [] p s d k = elim (Bool-cases p.running) [
  | inl e ↦ rw e (record { order = k.order; limit = k.limit })
  | inr e ↦ rw e (record { order = k.order; limit = k.limit })
]
takes-IsOrdered (t ∷ q) p s d k = record {
  order = append_assoc d (t ∷ []) q ∙ k.order;
  limit = λ m. omega (arith, k.limit m);
}

occur-IsOrdered : {A : Type 0} (e : Event A) (h : History A) → IsOrdered h → IsOrdered (occur e h)
unfolding occur start stop
occur-IsOrdered (submits t) h k = submits-IsOrdered t h k
occur-IsOrdered takes h k = takes-IsOrdered h.pool.queue h.pool h.submitted h.taken k
occur-IsOrdered (starts n) h k = elim (Bool-cases (h.pool.threads == 0)) [
  | inl e ↦ rw e (record { order = k.order; limit = k.limit })
  | inr e ↦ rw e k
]
occur-IsOrdered stops h k = record { order = k.order; limit = k.limit }

-- In any sequence of steps of a pool from a state where this holds, every task that was queued was taken,
-- or is in the queue, in the order of their queueing, and a queue with a limit is no longer than it.
pub run-IsOrdered :
    {A : Type 0} (es : List (Event A)) (h : History A) → IsOrdered h → IsOrdered (run es h)
unfolding run
run-IsOrdered [] h k = k
run-IsOrdered (e ∷ es) h k = run-IsOrdered es (occur e h) (occur-IsOrdered e h k)

pub fresh : {A : Type 0} → History A
unfolding create
fresh = record { pool = create; submitted = []; taken = [] }

pub fresh-IsOrdered : {A : Type 0} → IsOrdered (fresh {A = A})
unfolding fresh create
fresh-IsOrdered = record { order = refl; limit = λ h. absurd (omega (arith, h)) }
