-- ===== src/Threads/ThreadPool/Joins.antt =====
-- The Thread objects of framework/thread/src/ThreadPool.cpp: how `start` makes them, and how the destructor
-- joins them. For each there is an answer of pthread_create; `print` is the text of its number.
use thread_library.Prelude.{
  ℕ, ◌+◌, ◌≡◌, refl, ap, Bool, true, false, List, [], ◌∷◌, ◌++◌, Option, none, some, length, map,
  if◌then◌else◌,
}
use thread_library.Prelude.Outcome.{Outcome, ok, fatal, thrown, fault, Returns, Returns->>=, ◌>>=◌}
use thread_library.Threads.ThreadPool.{ThreadPool}
use thread_library.Threads.ThreadPool
use thread_library.Threads.Thread.{Thread, Effect, created, joined_with}
use thread_library.Threads.Thread

pub record Owner (A : Type 0) : Type 0 where
  pub pool : ThreadPool A
  pub threads : List Thread

unfoldable pub create : {A : Type 0} → Owner A
unfolding ThreadPool.create
create = record { pool = ThreadPool.create; threads = [] }

abbrev is_nil {ℓ} : {A : Type ℓ} → List A → Bool
is_nil [] = true
is_nil (x ∷ xs) = false

unfoldable create_threads : (ℕ → List ℕ) → List ℕ → ℕ → List (Option ℕ) → List Thread
unfolding Thread.create Thread.start
create_threads print name i [] = []
create_threads print name i (a ∷ xs) =
    Thread.start a (Thread.create (name ++ print (i + 1))) ∷ create_threads print name (i + 1) xs

-- `start` of as many threads as there are answers.
unfoldable pub start_threads :
    {A : Type 0} → (ℕ → List ℕ) → List ℕ → List (Option ℕ) → Owner A → Owner A
unfolding create_threads ThreadPool.start
start_threads print name answers o =
    if is_nil o.threads
    then record {
      pool = ThreadPool.start (length answers) o.pool;
      threads = create_threads print name 0 answers;
    }
    else o

unfoldable join_all : List Thread → Outcome (List Thread)
unfolding Thread.join
join_all [] = ok []
join_all (t ∷ ts) = Thread.join t >>= λ u. join_all ts >>= λ us. ok (u ∷ us)

abbrev stopped : {A : Type 0} → ThreadPool A → List Thread → Owner A
stopped p ts = record { pool = ThreadPool.stop p; threads = ts }

abbrev cleared : {A : Type 0} → Owner A → Owner A
cleared o = record o { threads = map Thread.destroy o.threads }

unfoldable stop_threads : {A : Type 0} → Owner A → Outcome (Owner A)
unfolding join_all ThreadPool.stop
stop_threads o = join_all o.threads >>= λ ts. ok (stopped o.pool ts)

-- The destructor, and those of the threads after it.
unfoldable pub destroy : {A : Type 0} → Owner A → Outcome (Owner A)
unfolding stop_threads Thread.destroy
destroy o = (if o.pool.running then stop_threads o else ok o) >>= λ p. ok (cleared p)

-- What pthread is asked for a thread that is created and joined.
abbrev pub life : ℕ → List Effect
life id = created id ∷ joined_with id ∷ []

abbrev pub traces : List Thread → List (List Effect)
traces = map (λ t. t.trace)

joins_each :
    (print : ℕ → List ℕ) (name : List ℕ) (i : ℕ) (ids : List ℕ)
    → Returns
        (join_all (create_threads print name i (map some ids)))
        (λ ts. traces (map Thread.destroy ts) ≡ map life ids)
unfolding join_all create_threads Thread.join Thread.start Thread.create Thread.destroy
joins_each print name i [] = refl
joins_each print name i (id ∷ ids) =
    Returns->>= (join_all (create_threads print name (i + 1) (map some ids))) _ _ _
      (joins_each print name (i + 1) ids) (λ ts h. ap (λ r. life id ∷ r) h)

join_fails :
    (print : ℕ → List ℕ) (name : List ℕ) (i : ℕ) (xs ys : List (Option ℕ))
    → join_all (create_threads print name i (xs ++ none ∷ ys)) ≡ fault
unfolding join_all create_threads Thread.join Thread.start Thread.create
join_fails print name i [] ys = refl
join_fails print name i (none ∷ xs) ys = refl
join_fails print name i (some id ∷ xs) ys = rw (join_fails print name (i + 1) xs ys) refl

after_joins :
    {A : Type 0} (p : ThreadPool A) (m : Outcome (List Thread)) (xs : List (List Effect))
    → Returns m (λ ts. traces (map Thread.destroy ts) ≡ xs)
    → Returns
        (m >>= (λ ts. ok (stopped p ts)) >>= λ o. ok (cleared o))
        (λ o. (traces o.threads ≡ xs) × (o.pool.running ≡ false))
unfolding ThreadPool.stop
after_joins p (ok ts) xs h = (h, refl)
after_joins p fatal xs h = absurd h
after_joins p thrown xs h = absurd h
after_joins p fault xs h = absurd h

-- The destructor of a pool that was started: if pthread_create made all of its threads it returns, with each
-- of them created and joined once; if one was not made, an assertion of `join` fails.
pub destroy_joins :
    {A : Type 0} (print : ℕ → List ℕ) (name : List ℕ) (ids : List ℕ) (xs ys : List (Option ℕ))
    → Returns
        (destroy (start_threads {A = A} print name (map some ids) create))
        (λ o. (traces o.threads ≡ map life ids) × (o.pool.running ≡ false))
      × (destroy (start_threads {A = A} print name (xs ++ none ∷ ys) create) ≡ fault)
unfolding destroy stop_threads start_threads create
destroy_joins {A} print name ids xs ys = (
  after_joins (start_threads {A = A} print name (map some ids) create).pool _ _
      (joins_each print name 0 ids),
  rw (join_fails print name 0 xs ys) refl,
)
