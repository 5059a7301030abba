-- ===== src/Threads/ThreadPool/Wakeups.antt =====
-- The conditions notEmpty_ and notFull_ of framework/thread/src/ThreadPool.cpp: who sleeps, and who was
-- woken, in any sequence of critical sections.
use thread_library.Prelude.{
  ℕ, suc, ◌-◌, ◌≤◌, ◌≡◌, refl, Bool, true, false, List, [], ◌∷◌, Option, none, some, arith, length,
  length-append, ltb, ◌==◌, if◌then◌else◌, Bool-cases, ◌⊎◌, inl, inr,
}
use thread_library.Threads.Condition.{
  Waiters, nobody, wait, notify, notify_all, returned, Owes, Owes-choice, notify-Owes, rouse-Owes,
  notify-still,
}
use thread_library.Threads.ThreadPool.{
  ThreadPool, start, stop, is_full, Entry, waits, enters, take_from, take, Place, ran, queued,
  push_task, run_task,
}

-- The pool with the threads that wait in `take` and the callers that wait in `runTask`.
pub record Site (A : Type 0) : Type 0 where
  pub pool : ThreadPool A
  pub not_empty : Waiters
  pub not_full : Waiters

pub data Event (A : Type 0) : Type 0 where
  -- a thread comes to `take`, or a woken one goes on there
  takes takes_again : Event A
  -- the same in `runTask`
  submits submits_again : A → Event A
  -- a thread wakes on its own
  rouses_worker rouses_caller : Event A
  starts : ℕ → Event A
  stops : Event A

unfoldable pub after_take : {A : Type 0} → Site A → Entry A (Option A) → Site A
after_take s waits = record s { not_empty = wait s.not_empty }
after_take s (enters none p) = record s { pool = p }
after_take s (enters (some t) p) = record s {
  pool = p;
  not_full = if ltb 0 p.max_queue_size then notify s.not_full else s.not_full;
}

unfoldable after_run : {A : Type 0} → Site A → Entry A Place → Site A
after_run s waits = record s { not_full = wait s.not_full }
after_run s (enters ran p) = record s { pool = p }
after_run s (enters queued p) = record s { pool = p; not_empty = notify s.not_empty }

unfoldable pub occur : {A : Type 0} → Event A → Site A → Site A
unfolding after_take after_run take run_task push_task start stop
occur takes s = after_take s (take s.pool)
occur takes_again s =
    if ltb 0 s.not_empty.woken
    then after_take (record s { not_empty = returned s.not_empty }) (take s.pool)
    else s
occur (submits t) s = after_run s (run_task t s.pool)
occur (submits_again t) s =
    if ltb 0 s.not_full.woken
    then after_run (record s { not_full = returned s.not_full }) (push_task t s.pool)
    else s
occur rouses_worker s = record s { not_empty = notify s.not_empty }
occur rouses_caller s = record s { not_full = notify s.not_full }
occur (starts n) s = record s { pool = start n s.pool }
occur stops s = record s { pool = stop s.pool; not_empty = notify_all s.not_empty }

unfoldable pub run : {A : Type 0} → List (Event A) → Site A → Site A
unfolding occur
run [] s = s
run (e ∷ es) s = run es (occur e s)

-- No wake-up is owed, and in a stopped pool no thread sleeps in `take`.
pub record IsAwake {A : Type 0} (s : Site A) : Type 0 where
  pub tasks : Owes (length s.pool.queue) s.not_empty
  pub ended : s.pool.running ≡ false → s.not_empty.sleeping ≡ 0
  pub room : Owes (s.pool.max_queue_size - length s.pool.queue) s.not_full

room_after :
    (m n : ℕ) (v : Waiters) → Owes (m - suc n) v → Owes (m - n) (if ltb 0 m then notify v else v)
room_after m n v r = elim (Bool-cases (ltb 0 m)) [
  | inl h ↦ rw h (λ k. omega (arith, notify-Owes (m - suc n) v r k))
  | inr h ↦ rw h (λ k. ground arith)
]

full_le : {A : Type 0} (p : ThreadPool A) → is_full p ≡ true → p.max_queue_size ≤ length p.queue
unfolding is_full
full_le p h = ground arith

module _ {A : Type 0} (p : ThreadPool A) (w v : Waiters) where
  -- The two conditions, without the thread that is at `take` or at the push.
  abbrev site : List A → Site A
  site q = record { pool = record p { queue = q }; not_empty = w; not_full = v }

  take_idle-IsAwake :
      (b : Bool)
      → (b ≡ false → w.sleeping ≡ 0)
      → Owes (p.max_queue_size - 0) v
      → let q : ThreadPool A = record p { queue = []; running = b } in
        IsAwake (after_take (record { pool = q; not_empty = w; not_full = v }) (take_from [] q))
  unfolding after_take take_from wait
  take_idle-IsAwake true e r = record { tasks = λ k. omega arith; ended = λ f. cc; room = r }
  take_idle-IsAwake false e r = record { tasks = λ k. omega arith; ended = e; room = r }

  take-IsAwake :
      (q : List A)
      → Owes (length q - 1) w
      → (p.running ≡ false → w.sleeping ≡ 0)
      → Owes (p.max_queue_size - length q) v
      → IsAwake (after_take (site q) (take_from q (site q).pool))
  unfolding after_take take_from
  take-IsAwake [] t e r = take_idle-IsAwake p.running e r
  take-IsAwake (x ∷ q) t e r = record {
    tasks = λ k. omega (arith, t k);
    ended = e;
    room = room_after p.max_queue_size (length q) v r;
  }

  push-IsAwake :
      (x : A) (q : List A)
      → Owes (length q) w
      → (p.running ≡ false → w.sleeping ≡ 0)
      → Owes (p.max_queue_size - length q - 1) v
      → IsAwake (after_run (site q) (push_task x (site q).pool))
  unfolding after_run push_task wait
  push-IsAwake x q t e r = elim (Bool-cases (is_full (site q).pool)) [
    | inl h ↦
        rw h (record { tasks = t; ended = e; room = λ k. omega (arith, full_le (site q).pool h) })
    | inr h ↦ rw h (record {
      tasks = λ k. omega (arith, length-append q (x ∷ []), notify-Owes (length q) w t k);
      ended = λ f. notify-still w (e f);
      room = λ k. omega (arith, length-append q (x ∷ []), r k);
    })
  ]

run_task-IsAwake :
    {A : Type 0} (t : A) (s : Site A) → IsAwake s → IsAwake (after_run s (run_task t s.pool))
unfolding run_task after_run
run_task-IsAwake t s k = elim (Bool-cases (s.pool.threads == 0)) [
  | inl none_yet ↦ rw none_yet k
  | inr some_are ↦ rw some_are (
      push-IsAwake s.pool s.not_empty s.not_full t s.pool.queue k.tasks k.ended
        (λ j. omega (arith, k.room j)))
]

occur-IsAwake : {A : Type 0} (e : Event A) (s : Site A) → IsAwake s → IsAwake (occur e s)
unfolding occur take start stop notify_all
occur-IsAwake takes s k =
    take-IsAwake s.pool s.not_empty s.not_full s.pool.queue (λ j. omega (arith, k.tasks j)) k.ended
      k.room
occur-IsAwake takes_again s k = elim (Bool-cases (ltb 0 s.not_empty.woken)) [
  | inl h ↦ rw h (
      take-IsAwake s.pool (returned s.not_empty) s.not_full s.pool.queue
        (λ j. omega (arith, k.tasks j)) k.ended k.room)
  | inr h ↦ rw h k
]
occur-IsAwake (submits t) s k = run_task-IsAwake t s k
occur-IsAwake (submits_again t) s k = elim (Bool-cases (ltb 0 s.not_full.woken)) [
  | inl h ↦ rw h (
      push-IsAwake s.pool s.not_empty (returned s.not_full) t s.pool.queue k.tasks k.ended
        (λ j. omega (arith, k.room j)))
  | inr h ↦ rw h k
]
occur-IsAwake rouses_worker s k = record {
  tasks = rouse-Owes (length s.pool.queue) s.not_empty k.tasks;
  ended = λ f. notify-still s.not_empty (k.ended f);
  room = k.room;
}
occur-IsAwake rouses_caller s k = record {
  tasks = k.tasks;
  ended = k.ended;
  room = rouse-Owes (s.pool.max_queue_size - length s.pool.queue) s.not_full k.room;
}
occur-IsAwake (starts n) s k = elim (Bool-cases (s.pool.threads == 0)) [
  | inl h ↦ rw h (record { tasks = k.tasks; ended = λ f. cc; room = k.room })
  | inr h ↦ rw h k
]
occur-IsAwake stops s k = record {
  tasks = λ j. absurd (omega (arith, j));
  ended = λ f. refl;
  room = k.room;
}

run-IsAwake : {A : Type 0} (es : List (Event A)) (s : Site A) → IsAwake s → IsAwake (run es s)
unfolding run
run-IsAwake [] s k = k
run-IsAwake (e ∷ es) s k = run-IsAwake es (occur e s) (occur-IsAwake e s k)

-- A pool that was made and given a limit of its queue.
abbrev pub fresh : {A : Type 0} → ℕ → Site A
fresh limit = record {
  pool = record { threads = 0; running = false; max_queue_size = limit; queue = [] };
  not_empty = nobody;
  not_full = nobody;
}

fresh-IsAwake : {A : Type 0} (limit : ℕ) → IsAwake (fresh {A = A} limit)
fresh-IsAwake limit = record {
  tasks = λ j. absurd (omega (arith, j));
  ended = λ f. refl;
  room = λ j. absurd (omega (arith, j));
}

-- No wake-up is lost. After any sequence of critical sections of a new pool: no thread sleeps in `take`, or as
-- many woken threads as there are tasks have yet to go on there; no caller sleeps in `runTask`, or as many
-- woken ones as there are free places have yet to go on; and no thread sleeps in `take` of a stopped pool.
pub wakes_all :
    {A : Type 0} (limit : ℕ) (es : List (Event A))
    → let s = run es (fresh limit) in
      ((s.not_empty.sleeping ≡ 0) ⊎ (length s.pool.queue ≤ s.not_empty.woken))
      × ((s.not_full.sleeping ≡ 0)
          ⊎ (s.pool.max_queue_size - length s.pool.queue ≤ s.not_full.woken))
      × ((s.not_empty.sleeping ≡ 0) ⊎ (s.pool.running ≡ true))
wakes_all limit es =
    let s = run es (fresh limit) in
    let k : IsAwake s = run-IsAwake es (fresh limit) (fresh-IsAwake limit) in
    (
      Owes-choice (length s.pool.queue) s.not_empty k.tasks,
      Owes-choice (s.pool.max_queue_size - length s.pool.queue) s.not_full k.room,
      elim (Bool-cases s.pool.running) [ inl on ↦ inr on | inr off ↦ inl (k.ended off) ],
    )
