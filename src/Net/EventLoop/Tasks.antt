-- ===== src/Net/EventLoop/Tasks.antt =====
-- A round of tasks.
use thread_library.Prelude.{
  ℕ, ◌+◌, ◌≡◌, refl, sym, ap, ◌∙◌, true, List, [], ◌∷◌, ◌++◌, append_assoc, append-nil, length,
  length-append, arith,
}
use thread_library.Net.EventLoop.{
  EventLoop, queue_in_loop, queue_all, run_one, run_all, do_pending_task, wake_up,
}

-- The tasks that a row of tasks queues.
abbrev pub queued : (ℕ → List ℕ) → List ℕ → List ℕ
queued body [] = []
queued body (t ∷ ts) = body t ++ queued body ts

-- A loop that is at its tasks has run `ts` more, and queued `us`, with a wake-up for each.
pub record HasDone (l : EventLoop) (ts us : List ℕ) (m : EventLoop) : Type 0 where
  pub in_order : m.ran ≡ l.ran ++ ts
  pub waiting : m.tasks ≡ l.tasks ++ us
  pub woken : m.wake_ups ≡ l.wake_ups + length us

queue_all-HasDone :
    (us : List ℕ) (l : EventLoop)
    → l.doing_task ≡ true
    → HasDone l [] us (queue_all us l) × ((queue_all us l).doing_task ≡ true)
unfolding queue_all queue_in_loop wake_up
queue_all-HasDone [] l d = (
  record {
    in_order = sym (append-nil l.ran);
    waiting = sym (append-nil l.tasks);
    woken = omega arith;
  },
  d,
)
queue_all-HasDone (u ∷ us) l d =
    let next : EventLoop = record l {
      tasks = l.tasks ++ u ∷ [];
      wake_ups = l.wake_ups + 1;
      doing_task = true;
    } in
    let h = queue_all-HasDone us next refl in
    rw d (
      record {
        in_order = h.0.in_order;
        waiting = h.0.waiting ∙ append_assoc l.tasks (u ∷ []) us;
        woken = omega (arith, h.0.woken);
      },
      h.1,
    )

run_all-HasDone :
    (body : ℕ → List ℕ) (ts : List ℕ) (l : EventLoop)
    → l.doing_task ≡ true
    → HasDone l ts (queued body ts) (run_all body ts l)
unfolding run_all run_one
run_all-HasDone body [] l d = record {
  in_order = sym (append-nil l.ran);
  waiting = sym (append-nil l.tasks);
  woken = omega arith;
}
run_all-HasDone body (t ∷ ts) l d =
    let first = queue_all-HasDone (body t) (record l { ran = l.ran ++ t ∷ [] }) d in
    let rest = run_all-HasDone body ts (run_one body t l) first.1 in
    record {
      in_order =
          rest.in_order
          ∙ ap (λ r. r ++ ts) (first.0.in_order ∙ append-nil (l.ran ++ t ∷ []))
          ∙ append_assoc l.ran (t ∷ []) ts;
      waiting =
          rest.waiting
          ∙ ap (λ r. r ++ queued body ts) first.0.waiting
          ∙ append_assoc l.tasks (body t) (queued body ts);
      woken = omega (arith, rest.woken, first.0.woken, length-append (body t) (queued body ts));
    }

-- DoPendingTask runs exactly the tasks that were queued before it, in order; those that they queue are
-- left for the next round, in order, and each of them has written the wake-up descriptor, so that the
-- next poll does not wait.
pub do_pending_task-HasDone :
    (body : ℕ → List ℕ) (l : EventLoop)
    → HasDone (record l { tasks = [] }) l.tasks (queued body l.tasks) (do_pending_task body l)
unfolding do_pending_task
do_pending_task-HasDone body l =
    let h = run_all-HasDone body l.tasks (record l { tasks = []; doing_task = true }) refl in
    record { in_order = h.in_order; waiting = h.waiting; woken = h.woken }
