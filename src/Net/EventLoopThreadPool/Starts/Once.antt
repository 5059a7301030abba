-- ===== src/Net/EventLoopThreadPool/Starts/Once.antt =====
-- Which workers make loops after one Start, and after two.
use thread_library.Prelude.{
  ℕ, zero, suc, ◌+◌, ◌≤◌, ◌≡◌, refl, sym, ap, ◌∙◌, true, false, List, [], ◌∷◌, ◌++◌, some, ltb,
  ◌==◌, arith, length, replicate, take, length-replicate, length-append, lt→ltb, le→ltb, subst, ◌-◌,
  append-nil, append_assoc,
}
use thread_library.Net.EventLoopThreadPool.{LoopPool, set_thread_num, add_loop}
use thread_library.Net.EventLoopThreadPool
use thread_library.Threads.ThreadPool.{ThreadPool, Place, waits, enters, ran, queued, run_task}
use thread_library.Threads.ThreadPool
use thread_library.Net.EventLoopThreadPool.Starts.{
  PoolTask, run_loop, Staff, create, push_tasks, start, start_with, begin_loop, begin_loops,
}

begin_loop_idle :
    (loop : ℕ) (c : Staff) → ltb c.busy c.workers.threads ≡ false → begin_loop loop c ≡ c
unfolding begin_loop
begin_loop_idle loop c h = rw h refl

begin_loop_takes :
    (loop : ℕ) (c : Staff) (t : PoolTask) (ts : List PoolTask)
    → ltb c.busy c.workers.threads ≡ true
    → c.workers.queue ≡ t ∷ ts
    → begin_loop loop c ≡ record {
      pool = add_loop loop c.pool;
      workers = record c.workers { queue = ts };
      busy = c.busy + 1;
    }
unfolding begin_loop ThreadPool.take ThreadPool.take_from
begin_loop_takes loop c t ts h q = rw (h, q) refl

run_task_lem :
    (t : PoolTask) (w : ThreadPool PoolTask)
    → w.max_queue_size ≡ 0
    → (w.threads == 0) ≡ false
    → run_task t w ≡ enters queued (record w { queue = w.queue ++ t ∷ [] })
unfolding run_task ThreadPool.push_task ThreadPool.is_full
run_task_lem t w z h = rw h (rw z refl)

push_tasks_lem :
    (m : ℕ) (w : ThreadPool PoolTask)
    → w.max_queue_size ≡ 0
    → (w.threads == 0) ≡ false
    → push_tasks m w ≡ some (record w { queue = w.queue ++ replicate m run_loop })
unfolding push_tasks
push_tasks_lem zero w z h = rw (append-nil w.queue) refl
push_tasks_lem (suc m) w z h =
    rw (run_task_lem run_loop w z h, push_tasks)
      (push_tasks_lem m (record w { queue = w.queue ++ run_loop ∷ [] }) z h
        ∙ ap (λ q. some (record w { queue = q }))
            (append_assoc w.queue (run_loop ∷ []) (replicate m run_loop)))

-- `n` workers, of which `free` are in no loop and have a task in the queue each.
pub record Has (n free : ℕ) (c : Staff) : Type 0 where
  pub workers : c.workers.threads ≡ n
  pub busy : c.busy + free ≡ n
  pub tasks : free ≤ length c.workers.queue
  pub unbounded : c.workers.max_queue_size ≡ 0

-- What is left of the pool after workers asked for tasks.
pub record Begun (n free : ℕ) (loops : List ℕ) (c d : Staff) : Type 0 where
  pub made : d.pool.loops ≡ c.pool.loops ++ take free loops
  pub thread_num : d.pool.thread_num ≡ c.pool.thread_num
  pub current_index : d.pool.current_index ≡ c.pool.current_index
  pub has : Has n (free - length loops) d

take_nil : (n : ℕ) → take {A = ℕ} n [] ≡ []
take_nil zero = refl
take_nil (suc n) = refl

begin_loop-Begun :
    (n free loop : ℕ) (c : Staff) (q : List PoolTask)
    → c.workers.queue ≡ q
    → Has n (suc free) c
    → Begun n (suc free) (loop ∷ []) c (begin_loop loop c)
unfolding add_loop
begin_loop-Begun n free loop c [] e h = absurd (ground (arith, h.tasks, e))
begin_loop-Begun n free loop c (t ∷ ts) e h =
    let less : ltb c.busy c.workers.threads ≡ true =
      lt→ltb _ _ (omega (arith, h.busy, h.workers)) in
    let more : suc free ≤ suc (length ts) = subst (λ r. suc free ≤ length r) e h.tasks in
    subst (Begun n (suc free) (loop ∷ []) c) (sym (begin_loop_takes loop c t ts less e)) (record {
      made = ap (λ r. c.pool.loops ++ loop ∷ r) (sym (take_nil free));
      thread_num = refl;
      current_index = refl;
      has = record {
        workers = h.workers;
        busy = omega (arith, h.busy);
        tasks = omega (arith, more);
        unbounded = h.unbounded;
      };
    })

pub begin_loops-Begun :
    (n free : ℕ) (loops : List ℕ) (c : Staff)
    → Has n free c
    → Begun n free loops c (begin_loops loops c)
unfolding begin_loops
begin_loops-Begun n free [] c h = record {
  made = rw (take_nil free, append-nil c.pool.loops) refl;
  thread_num = refl;
  current_index = refl;
  has = subst (λ k. Has n k c) (omega arith) h;
}
begin_loops-Begun n zero (loop ∷ loops) c h =
    rw (begin_loop_idle loop c (le→ltb _ _ (omega (arith, h.busy, h.workers)))) (
      let r = begin_loops-Begun n zero loops c h in
      record {
        made = r.made;
        thread_num = r.thread_num;
        current_index = r.current_index;
        has = subst (λ k. Has n k (begin_loops loops c)) (omega arith) r.has;
      })
begin_loops-Begun n (suc free) (loop ∷ loops) c h =
    let a = begin_loop-Begun n free loop c c.workers.queue refl h in
    let r =
      begin_loops-Begun n free loops (begin_loop loop c)
        (subst (λ k. Has n k (begin_loop loop c)) (omega arith) a.has) in
    record {
      made =
          r.made
          ∙ ap (λ x. x ++ take free loops)
              (a.made ∙ ap (λ y. c.pool.loops ++ loop ∷ y) (take_nil free))
          ∙ append_assoc c.pool.loops (loop ∷ []) (take free loops);
      thread_num = r.thread_num ∙ a.thread_num;
      current_index = r.current_index ∙ a.current_index;
      has = subst (λ k. Has n k (begin_loops loops (begin_loop loop c))) (omega arith) r.has;
    }

abbrev started : ℕ → ThreadPool PoolTask
started n = record { threads = n; running = true; max_queue_size = 0; queue = [] }

started_lem : (n : ℕ) → ThreadPool.start n ThreadPool.create ≡ started n
unfolding ThreadPool.start ThreadPool.create
started_lem n = refl

unfoldable pub first_start : ℕ → ℕ → Staff
unfolding create set_thread_num
first_start base n = record {
  pool = set_thread_num n (create base).pool;
  workers = record (started n) { queue = replicate n run_loop };
  busy = 0;
}

start_lem :
    (c : Staff) (w : ThreadPool PoolTask)
    → ThreadPool.start c.pool.thread_num c.workers ≡ w
    → w.max_queue_size ≡ 0
    → (w.threads == 0) ≡ false
    → start c
      ≡ some (record c {
        workers = record w { queue = w.queue ++ replicate c.pool.thread_num run_loop };
      })
unfolding start
start_lem c w e z h = rw (e, start) (rw (push_tasks_lem c.pool.thread_num w z h, start) refl)

start_none : (base : ℕ) → start_with 0 (create base) ≡ some (first_start base 0)
unfolding first_start start create set_thread_num ThreadPool.create ThreadPool.start push_tasks
    EventLoopThreadPool.create
start_none base = refl

pub first_start_lem : (base n : ℕ) → start_with n (create base) ≡ some (first_start base n)
unfolding first_start create set_thread_num ThreadPool.create
first_start_lem base zero = start_none base
first_start_lem base (suc n) =
    start_lem (record (create base) { pool = set_thread_num (suc n) (create base).pool })
      (started (suc n)) (started_lem (suc n)) refl (ground arith)

pub first_start-Has : (base n : ℕ) → Has n n (first_start base n)
unfolding first_start
first_start-Has base n = record {
  workers = refl;
  busy = omega arith;
  tasks = omega (arith, length-replicate n run_loop);
  unbounded = refl;
}

-- What a later Start leaves of a pool that has workers.
record Again (n free m : ℕ) (c d : Staff) : Type 0 where
  returns : start_with m c ≡ some d
  has : Has (suc n) free d
  loops : d.pool.loops ≡ c.pool.loops

start-Again : (n free m : ℕ) (c : Staff) → Has (suc n) free c → (d : Staff) × Again n free m c d
unfolding ThreadPool.start set_thread_num
start-Again n free m c h =
    let some_threads : (c.workers.threads == 0) ≡ false = ground (arith, h.workers) in
    let kept : ThreadPool.start m c.workers ≡ c.workers = rw some_threads refl in
    let w : ThreadPool PoolTask = record c.workers {
      queue = c.workers.queue ++ replicate m run_loop;
    } in
    (
      record c { pool = set_thread_num m c.pool; workers = w },
      record {
        returns =
            start_lem (record c { pool = set_thread_num m c.pool }) c.workers kept h.unbounded
              some_threads;
        has = record {
          workers = h.workers;
          busy = h.busy;
          tasks = omega (arith, h.tasks, length-append c.workers.queue (replicate m run_loop));
          unbounded = h.unbounded;
        };
        loops = refl;
      },
    )

take-append : (n : ℕ) (xs ys : List ℕ) → take n (xs ++ ys) ≡ take n xs ++ take (n - length xs) ys
take-append zero [] ys = refl
take-append zero (x ∷ xs) ys = ap (λ k. take k ys) {x = 0} {y = 0 - suc (length xs)} (omega arith)
take-append (suc n) [] ys = ap (λ k. take k ys) {x = suc n} {y = suc n - 0} (omega arith)
take-append (suc n) (x ∷ xs) ys =
    ap (λ r. x ∷ r)
      (take-append n xs ys
        ∙ ap (λ k. take n xs ++ take k ys) {x = n - length xs} {y = suc n - suc (length xs)}
            (omega arith))

-- Start of a new pool with `n + 1` threads returns, and however often its workers ask for a task, the loops are
-- those of the first `n + 1` tasks given out. A second Start, with any number, returns too but makes no worker:
-- with all that is asked for after it, there are still no loops but those of the first `n + 1`.
pub starts_once :
    (base n m : ℕ) (ids more : List ℕ)
    → (c : Staff) × (start_with (suc n) (create base) ≡ some c)
      × ((begin_loops ids c).pool.loops ≡ take (suc n) ids)
      × (d : Staff) × (start_with m (begin_loops ids c) ≡ some d)
      × ((begin_loops more d).pool.loops ≡ take (suc n) (ids ++ more))
unfolding first_start create set_thread_num EventLoopThreadPool.create
starts_once base n m ids more =
    let c = first_start base (suc n) in
    let r = begin_loops-Begun (suc n) (suc n) ids c (first_start-Has base (suc n)) in
    let (d, a) = start-Again n (suc n - length ids) m (begin_loops ids c) r.has in
    let s = begin_loops-Begun (suc n) (suc n - length ids) more d a.has in
    (
      c,
      first_start_lem base (suc n),
      r.made,
      d,
      a.returns,
      s.made
          ∙ ap (λ x. x ++ take (suc n - length ids) more) (a.loops ∙ r.made)
          ∙ sym (take-append (suc n) ids more),
    )
