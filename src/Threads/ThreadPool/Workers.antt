-- ===== src/Threads/ThreadPool/Workers.antt =====
-- The threads of a pool: `runInThread` of framework/thread/src/ThreadPool.cpp, one step at a time,
-- and its `stop` up to the joins. The init callback is left out; of a task it matters whether it returns,
-- which is the argument `returns`. A thread that waits sleeps until it is notified.
use thread_library.Prelude.{
  ℕ, Bool, true, sym, ◌+◌, ◌-◌, ◌≤◌, ◌≡◌, refl, false, List, [], ◌∷◌, Option, none, some, ◌==◌,
  if◌then◌else◌, arith, Bool-cases, inl, inr, ==_eq, subst,
}
use thread_library.Threads.ThreadPool.{ThreadPool, Entry, waits, enters, take, take_from, stop}

-- Before the test of the while, in `take`, asleep there, with a task, and behind the loop.
pub data Phase {ℓ} (A : Type ℓ) : Type ℓ where
  tests fetches sleeps finished : Phase A
  executes : A → Phase A

unfoldable fetched {ℓ} : {A : Type ℓ} → ThreadPool A → Entry A (Option A) → Phase A × ThreadPool A
fetched p waits = (sleeps, p)
fetched p (enters none q) = (tests, q)
fetched p (enters (some t) q) = (executes t, q)

-- The next step of a thread, which does nothing if the thread sleeps or its task goes on.
unfoldable pub advance {ℓ} :
    {A : Type ℓ} → (A → Bool) → Phase A → ThreadPool A → Phase A × ThreadPool A
unfolding fetched take
advance returns tests p = (if p.running then fetches else finished, p)
advance returns fetches p = fetched p (take p)
advance returns sleeps p = (sleeps, p)
advance returns (executes t) p = (if returns t then tests else executes t, p)
advance returns finished p = (finished, p)

pub record Crew {ℓ} (A : Type ℓ) : Type ℓ where
  pub pool : ThreadPool A
  pub phase : ℕ → Phase A

unfoldable work {ℓ} : {A : Type ℓ} → (A → Bool) → ℕ → Crew A → Crew A
unfolding advance
work returns i c =
    let r = advance returns (c.phase i) c.pool in
    record { pool = r.1; phase = λ j. if i == j then r.0 else c.phase j }

-- The threads work in the order of a schedule.
unfoldable pub work_all {ℓ} : {A : Type ℓ} → (A → Bool) → List ℕ → Crew A → Crew A
unfolding work
work_all returns [] c = c
work_all returns (i ∷ is) c = work_all returns is (work returns i c)

abbrev woken {ℓ} : {A : Type ℓ} → Phase A → Phase A
woken sleeps = fetches
woken f = f

-- `notifyAll` of `not_empty_`.
unfoldable notify_all {ℓ} : {A : Type ℓ} → Crew A → Crew A
notify_all c = record c { phase = λ j. woken (c.phase j) }

-- `stop`, up to the joins.
unfoldable pub stop_crew {ℓ} : {A : Type ℓ} → Crew A → Crew A
unfolding stop notify_all
stop_crew c = notify_all (record c { pool = stop c.pool })

abbrev turn_of : ℕ → ℕ → ℕ
turn_of i j = if j == i then 1 else 0

abbrev turns_of : ℕ → List ℕ → ℕ
turns_of i [] = 0
turns_of i (j ∷ is) = turn_of i j + turns_of i is

-- How many steps a thread of a stopped pool that does not sleep has left at most.
abbrev rank {ℓ} : {A : Type ℓ} → Phase A → ℕ
rank finished = 0
rank tests = 1
rank (executes t) = 2
rank fetches = 3
rank sleeps = 4

fetched-stopped {ℓ} :
    {A : Type ℓ} (ts : List A) (p : ThreadPool A)
    → p.running ≡ false
    → let r = fetched p (take_from ts p) in (rank r.0 ≤ 2) × (r.1.running ≡ false)
unfolding fetched take_from
fetched-stopped [] p h = rw h (omega arith, refl)
fetched-stopped (t ∷ ts) p h = (omega arith, h)

advance-running {ℓ} :
    {A : Type ℓ} (returns : A → Bool) (f : Phase A) (p : ThreadPool A)
    → p.running ≡ false
    → (advance returns f p).1.running ≡ false
unfolding advance take
advance-running returns tests p h = h
advance-running returns fetches p h = (fetched-stopped p.queue p h).1
advance-running returns sleeps p h = h
advance-running returns (executes t) p h = h
advance-running returns finished p h = h

advance-stopped {ℓ} :
    {A : Type ℓ} (returns : A → Bool) (f : Phase A) (p : ThreadPool A)
    → ((t : A) → returns t ≡ true)
    → p.running ≡ false
    → rank f ≤ 3
    → rank (advance returns f p).0 ≤ rank f - 1
unfolding advance take
advance-stopped returns tests p all h b = rw h (omega arith)
advance-stopped returns fetches p all h b = (fetched-stopped p.queue p h).0
advance-stopped returns sleeps p all h b = absurd (omega (arith, b))
advance-stopped returns (executes t) p all h b = rw (all t) (omega arith)
advance-stopped returns finished p all h b = omega arith

work-stopped {ℓ} :
    {A : Type ℓ} (returns : A → Bool) (j i : ℕ) (c : Crew A)
    → ((t : A) → returns t ≡ true)
    → c.pool.running ≡ false
    → rank (c.phase i) ≤ 3
    → rank ((work returns j c).phase i) ≤ rank (c.phase i) - turn_of i j
unfolding work
work-stopped returns j i c all h b = elim (Bool-cases (j == i)) [
  | inl e ↦ rw e (
      subst (λ k. rank (advance returns (c.phase k) c.pool).0 ≤ rank (c.phase i) - 1)
        (sym (==_eq j i e)) (advance-stopped returns (c.phase i) c.pool all h b))
  | inr e ↦ rw e (omega arith)
]

work_all-stopped {ℓ} :
    {A : Type ℓ} (returns : A → Bool) (is : List ℕ) (c : Crew A) (i : ℕ)
    → ((t : A) → returns t ≡ true)
    → c.pool.running ≡ false
    → rank (c.phase i) ≤ 3
    → rank ((work_all returns is c).phase i) ≤ rank (c.phase i) - turns_of i is
unfolding work_all work
work_all-stopped returns [] c i all h b = omega arith
work_all-stopped returns (j ∷ is) c i all h b =
    let step = work-stopped returns j i c all h b in
    let rest =
      work_all-stopped returns is (work returns j c) i all
        (advance-running returns (c.phase j) c.pool h) (omega (arith, step, b)) in
    omega (arith, rest, step)

rank-woken {ℓ} : {A : Type ℓ} (f : Phase A) → rank (woken f) ≤ 3
rank-woken finished = omega arith
rank-woken tests = omega arith
rank-woken (executes t) = omega arith
rank-woken fetches = omega arith
rank-woken sleeps = omega arith

rank_zero {ℓ} : {A : Type ℓ} (f : Phase A) → rank f ≤ 0 → f ≡ finished
rank_zero finished h = refl
rank_zero tests h = absurd (omega arith)
rank_zero (executes t) h = absurd (omega arith)
rank_zero fetches h = absurd (omega arith)
rank_zero sleeps h = absurd (omega arith)

-- If every task returns, then after `stop`, in every schedule in which a thread gets three turns, that thread
-- has left runInThread, whether it slept in `take` or not and whatever is in the queue.
pub stop_ends {ℓ} :
    {A : Type ℓ} (returns : A → Bool) (is : List ℕ) (c : Crew A) (i : ℕ)
    → ((t : A) → returns t ≡ true)
    → 3 ≤ turns_of i is
    → (work_all returns is (stop_crew c)).phase i ≡ finished
unfolding stop stop_crew notify_all
stop_ends returns is c i all h = rank_zero _ (
    omega (
      arith,
      work_all-stopped returns is (stop_crew c) i all refl (rank-woken (c.phase i)),
      rank-woken (c.phase i),
      h,
    ))
