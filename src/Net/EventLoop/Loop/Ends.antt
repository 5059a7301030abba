-- ===== src/Net/EventLoop/Loop/Ends.antt =====
-- How a loop serves its tasks until it is told to quit.
use thread_library.Prelude.{
  ℕ, ◌<◌, ltb, lt→ltb, arith, ◌≡◌, refl, sym, ap, ◌∙◌, Bool, true, false, ◌||◌, List, [], ◌∷◌, ◌++◌,
  append_assoc, append-nil, if◌then◌else◌, All, not, subst,
}
use thread_library.Prelude.Outcome.{Returns}
use thread_library.Net.Channel.{Channel}
use thread_library.Net.EventLoop.{EventLoop, queue_in_loop, wake_up, handle_read, do_pending_task}
use thread_library.Net.EventLoop.Tasks.{HasDone, queued, do_pending_task-HasDone}
use thread_library.Net.EventLoop.Loop.{
  Looping, Request, queues, quits, Round, quit_loop, serve, serve_all, handle_active, turn,
  has_some, poll_returns, Run, ended, polls, turns, run_loop,
}

-- The tasks that requests queue, and whether one of them quits.
abbrev asked : List Request → List ℕ
asked [] = []
asked (queues t ∷ rs) = t ∷ asked rs
asked (quits ∷ rs) = asked rs

abbrev quits_in : List Request → Bool
quits_in [] = false
quits_in (queues t ∷ rs) = quits_in rs
quits_in (quits ∷ rs) = true

abbrev round_quits : Round → Bool
round_quits r = quits_in r.before || quits_in r.within

-- A queue beside the loop: the tasks that are in it at the end of a round's requests, those that have
-- run after all rounds, and those that are left.
abbrev due : List ℕ → Round → List ℕ
due q r = (q ++ asked r.before) ++ asked r.within

abbrev pub run_due : (ℕ → List ℕ) → List ℕ → List Round → List ℕ
run_due body q [] = []
run_due body q (r ∷ rs) = due q r ++ run_due body (queued body (due q r)) rs

abbrev pub left_due : (ℕ → List ℕ) → List ℕ → List Round → List ℕ
left_due body q [] = q
left_due body q (r ∷ rs) = left_due body (queued body (due q r)) rs

-- The state `m` behind the requests of `l`.
record Served (ts : List ℕ) (b : Bool) (l m : Looping) : Type 0 where
  waiting : m.loop.tasks ≡ l.loop.tasks ++ ts
  done : m.loop.ran ≡ l.loop.ran
  told : m.quit ≡ l.quit || b

queued_up :
    (in_thread : Bool) (t : ℕ) (l : EventLoop)
    → ((queue_in_loop in_thread t l).tasks ≡ l.tasks ++ t ∷ [])
      × ((queue_in_loop in_thread t l).ran ≡ l.ran)
unfolding queue_in_loop wake_up
queued_up in_thread t l =
    woken (not in_thread || l.doing_task) (record l { tasks = l.tasks ++ t ∷ [] })
  where
    woken :
        (b : Bool) (q : EventLoop)
        → ((if b then wake_up q else q).tasks ≡ q.tasks)
          × ((if b then wake_up q else q).ran ≡ q.ran)
    woken true q = (refl, refl)
    woken false q = (refl, refl)

or-true : (b : Bool) → b || true ≡ true
or-true true = refl
or-true false = refl

or-false : (b : Bool) → b || false ≡ b
or-false true = refl
or-false false = refl

or_assoc : (a b c : Bool) → (a || b) || c ≡ a || (b || c)
or_assoc true b c = refl
or_assoc false b c = refl

serve_all-Served :
    (in_thread : Bool) (rs : List Request) (l : Looping)
    → Served (asked rs) (quits_in rs) l (serve_all in_thread rs l)
unfolding serve_all serve quit_loop wake_up
serve_all-Served in_thread [] l = record {
  waiting = sym (append-nil l.loop.tasks);
  done = refl;
  told = sym (or-false l.quit);
}
serve_all-Served in_thread (queues t ∷ rs) l =
    let q = queued_up in_thread t l.loop in
    let h = serve_all-Served in_thread rs (serve in_thread (queues t) l) in
    record {
      waiting =
          h.waiting ∙ ap (λ u. u ++ asked rs) q.0 ∙ append_assoc l.loop.tasks (t ∷ []) (asked rs);
      done = h.done ∙ q.1;
      told = h.told;
    }
serve_all-Served in_thread (quits ∷ rs) l =
    let h = serve_all-Served in_thread rs (serve in_thread quits l) in
    record { waiting = h.waiting; done = h.done; told = h.told ∙ sym (or-true l.quit) }

handle_active-keeps :
    (cs : List Channel) (l : Looping)
    → ((handle_active cs l).loop ≡ l.loop) × ((handle_active cs l).quit ≡ l.quit)
unfolding handle_active
handle_active-keeps [] l = (refl, refl)
handle_active-keeps (c ∷ cs) l = handle_active-keeps cs _

turn-Served :
    (body : ℕ → List ℕ) (r : Round) (l : Looping)
    → ((turn body r l).loop.tasks ≡ queued body (due l.loop.tasks r))
      × ((turn body r l).loop.ran ≡ l.loop.ran ++ due l.loop.tasks r)
      × ((turn body r l).quit ≡ l.quit || round_quits r)
unfolding turn
turn-Served body r l = (
  h.waiting ∙ ap (queued body) due_tasks,
  h.in_order
      ∙ ap (λ t. m.loop.ran ++ t) due_tasks
      ∙ ap (λ t. t ++ due l.loop.tasks r) (c.done ∙ ap (λ e. e.ran) k.0 ∙ a.done),
  c.told
      ∙ ap (λ b. b || quits_in r.within) (k.1 ∙ a.told)
      ∙ or_assoc l.quit (quits_in r.before) (quits_in r.within),
)
  where
    x : Looping
    x = serve_all false r.before l

    y : Looping
    y = handle_active r.active (record x { loop = handle_read x.loop })

    m : Looping
    m = serve_all true r.within y

    a : Served (asked r.before) (quits_in r.before) l x
    a = serve_all-Served false r.before l

    k : (y.loop ≡ handle_read x.loop) × (y.quit ≡ x.quit)
    k = handle_active-keeps r.active (record x { loop = handle_read x.loop })

    c : Served (asked r.within) (quits_in r.within) y m
    c = serve_all-Served true r.within y

    h :
        HasDone
          (record m.loop { tasks = [] })
          m.loop.tasks
          (queued body m.loop.tasks)
          (do_pending_task body m.loop)
    h = do_pending_task-HasDone body m.loop

    due_tasks : m.loop.tasks ≡ due l.loop.tasks r
    due_tasks = c.waiting ∙ ap (λ t. t ++ asked r.within) (ap (λ e. e.tasks) k.0 ∙ a.waiting)

-- The run has returned with these tasks run and these left, and loop_ and quit_ as they should be.
abbrev pub EndsWith : List ℕ → List ℕ → Run → Type 0
EndsWith ts us (ended m) =
    (m.loop.ran ≡ ts) × (m.loop.tasks ≡ us) × (m.looping ≡ false) × (m.quit ≡ true)
EndsWith ts us (polls m) = ⊥

EndsWith-eq :
    {ts us vs ws : List ℕ} → ts ≡ us → vs ≡ ws → (o : Run) → EndsWith ts vs o → EndsWith us ws o
EndsWith-eq {us = us} {vs = vs} h k o e =
    subst (λ x. EndsWith us x o) k (subst (λ x. EndsWith x vs o) h e)

told_ends :
    (body : ℕ → List ℕ) (rs : List Round) (l : Looping)
    → l.quit ≡ true
    → turns body false rs l ≡ ended (record l { looping = false })
unfolding turns
told_ends body [] l h = rw h refl
told_ends body (r ∷ rs) l h = rw h refl

-- Something happens while the loop polls.
abbrev pub stirs : Round → Bool
stirs r = r.interrupted || (has_some r.active || has_some r.before)

serve_wakes : (r : Request) (l : Looping) → 0 < (serve false r l).loop.wake_ups
unfolding serve queue_in_loop quit_loop wake_up
serve_wakes (queues t) l = omega arith
serve_wakes quits l = omega arith

serve_all_wakes :
    (rs : List Request) (l : Looping)
    → 0 < l.loop.wake_ups
    → 0 < (serve_all false rs l).loop.wake_ups
unfolding serve_all
serve_all_wakes [] l h = h
serve_all_wakes (r ∷ rs) l h = serve_all_wakes rs (serve false r l) (serve_wakes r l)

wakes :
    (i : Bool) (cs : List Channel) (rs : List Request) (l : Looping)
    → i || (has_some cs || has_some rs) ≡ true
    → i || (has_some cs || ltb 0 (serve_all false rs l).loop.wake_ups) ≡ true
unfolding serve_all
wakes true cs rs l h = refl
wakes false (c ∷ cs) rs l h = refl
wakes false [] (r ∷ rs) l h = lt→ltb 0 _ (serve_all_wakes rs (serve false r l) (serve_wakes r l))
wakes false [] [] l h = absurd (ground (arith, h))

turns_on :
    (body : ℕ → List ℕ) (r : Round) (rs : List Round) (l : Looping)
    → l.quit ≡ false
    → stirs r ≡ true
    → turns body false (r ∷ rs) l ≡ turns body false rs (turn body r l)
unfolding turns poll_returns
turns_on body r rs l h s = simp (h, wakes r.interrupted r.active r.before l s) refl

turns_end :
    (body : ℕ → List ℕ) (rs : List Round) (r : Round) (ss : List Round) (l : Looping)
    → l.quit ≡ false
    → All (λ q. round_quits q ≡ false) rs
    → round_quits r ≡ true
    → All (λ q. stirs q ≡ true) rs
    → stirs r ≡ true
    → EndsWith
        (l.loop.ran ++ run_due body l.loop.tasks (rs ++ r ∷ []))
        (left_due body l.loop.tasks (rs ++ r ∷ []))
        (turns body false (rs ++ r ∷ ss) l)
turns_end body [] r ss l q a h stir last =
    let t = turn-Served body r l in
    let told = t.2 ∙ ap (λ b. b || round_quits r) q ∙ h in
    rw (turns_on body r ss l q last) (
      rw (told_ends body ss (turn body r l) told) (
        t.1 ∙ ap (λ ts. l.loop.ran ++ ts) (sym (append-nil (due l.loop.tasks r))),
        t.0,
        refl,
        told,
      ))
turns_end body (p ∷ rs) r ss l q (u, a) h (first, stir) last =
    let t = turn-Served body p l in
    let d = due l.loop.tasks p in
    let k = rs ++ r ∷ [] in
    let rest =
      turns_end body rs r ss (turn body p l) (t.2 ∙ ap (λ b. b || round_quits p) q ∙ u) a h stir
        last in
    rw (turns_on body p (rs ++ r ∷ ss) l q first) (
      EndsWith-eq
        (ap (λ ts. (turn body p l).loop.ran ++ run_due body ts k) t.0
          ∙ ap (λ ts. ts ++ run_due body (queued body d) k) t.1
          ∙ append_assoc l.loop.ran d (run_due body (queued body d) k))
        (ap (λ ts. left_due body ts k) t.0) (turns body false (rs ++ r ∷ ss) (turn body p l)) rest)

-- If in each round up to that of the first Quit another thread calls QueueInLoop or Quit, a channel is active
-- or a signal comes, and no task quits, then Loop, in its thread and not yet running, returns after that
-- round: with the callbacks' and the other threads' tasks of all these rounds run in order, each task that a
-- task queued in the round after, and the tasks that the last round's tasks queued left in the queue.
pub run_loop_ends :
    (body : ℕ → List ℕ) (rs : List Round) (r : Round) (ss : List Round) (l : Looping)
    → l.looping ≡ false
    → All (λ q. round_quits q ≡ false) rs
    → round_quits r ≡ true
    → All (λ q. stirs q ≡ true) rs
    → stirs r ≡ true
    → Returns (run_loop body true (rs ++ r ∷ ss) l) (
        EndsWith
          (l.loop.ran ++ run_due body l.loop.tasks (rs ++ r ∷ []))
          (left_due body l.loop.tasks (rs ++ r ∷ [])))
unfolding run_loop
run_loop_ends body rs r ss l n a h stir last =
    rw n (turns_end body rs r ss (record l { looping = true; quit = false }) refl a h stir last)

-- A call of Quit before Loop does not count: the loop polls all the same.
quit_before_loop :
    (body : ℕ → List ℕ) (l : Looping)
    → l.looping ≡ false
    → Returns (run_loop body true [] (quit_loop l)) (λ o. (m : Looping) × (o ≡ polls m))
unfolding run_loop turns quit_loop
quit_before_loop body l n = rw n (_, refl)
