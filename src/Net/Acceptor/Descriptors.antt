-- ===== src/Net/Acceptor/Descriptors.antt =====
-- The descriptors that an acceptor was given, and what it did with them.
use thread_library.Prelude.{
  ℕ, ◌+◌, ◌≡◌, List, [], ◌∷◌, ◌++◌, All, Option, none, some, ◌==◌, if◌then◌else◌, arith, Bool-cases,
  inl, inr,
}
use thread_library.Prelude.Outcome.{Returns, Returns->>=, Returns-mono}
use thread_library.Net.Acceptor.{
  Effect, closed, handed_over, listened, poll_update, Acceptor, AcceptResult, accepted, exhausted,
  failed, broken, by_result, close_if, handle_read, handle_reads,
}

abbrev times_in_one : ℕ → ℕ → ℕ
times_in_one x y = if x == y then 1 else 0

-- How often `x` is among the descriptors.
pub times : ℕ → List ℕ → ℕ
times x [] = 0
times x (y ∷ ys) = times_in_one x y + times x ys

-- How often `x` was closed or handed over.
pub disposed : ℕ → List Effect → ℕ
disposed x [] = 0
disposed x (closed fd ∷ es) = times_in_one x fd + disposed x es
disposed x (handed_over fd ∷ es) = times_in_one x fd + disposed x es
disposed x (listened ∷ es) = disposed x es
disposed x (poll_update _ ∷ es) = disposed x es

abbrev held : Option ℕ → List ℕ
held none = []
held (some fd) = fd ∷ []

-- The descriptors that the system gave with an answer.
abbrev given : AcceptResult → List ℕ
given (accepted fd) = fd ∷ []
given (exhausted second idle) = held second ++ held idle
given failed = []
given broken = []

abbrev pub given_all : List AcceptResult → List ℕ
given_all [] = []
given_all (r ∷ rs) = given r ++ given_all rs

times-append : (x : ℕ) (xs ys : List ℕ) → times x (xs ++ ys) ≡ times x xs + times x ys
unfolding times
times-append x [] ys = omega arith
times-append x (y ∷ xs) ys = omega (arith, times-append x xs ys)

disposed-append :
    (x : ℕ) (es fs : List Effect) → disposed x (es ++ fs) ≡ disposed x es + disposed x fs
unfolding disposed
disposed-append x [] fs = omega arith
disposed-append x (closed fd ∷ es) fs = omega (arith, disposed-append x es fs)
disposed-append x (handed_over fd ∷ es) fs = omega (arith, disposed-append x es fs)
disposed-append x (listened ∷ es) fs = disposed-append x es fs
disposed-append x (poll_update _ ∷ es) fs = disposed-append x es fs

-- What the acceptor holds, and what it has disposed of.
abbrev pub settled : ℕ → Acceptor → ℕ
settled x a = times x (held a.idle_fd) + disposed x a.trace

disposed-close_if :
    (x : ℕ) (o : Option ℕ) (a : Acceptor)
    → disposed x (close_if o a).trace ≡ times x (held o) + disposed x a.trace
unfolding times disposed
disposed-close_if x none a = omega arith
disposed-close_if x (some fd) a = omega (arith, disposed-append x a.trace (closed fd ∷ []))

-- No answer for which `Accept` aborts.
abbrev pub IsHandled : AcceptResult → Type 0
IsHandled broken = ⊥
IsHandled _ = Unit

by_result-settled :
    (x : ℕ) (r : AcceptResult) (a : Acceptor)
    → IsHandled r
    → Returns (by_result r a) (λ b. settled x b ≡ settled x a + times x (given r))
unfolding by_result times disposed
by_result-settled x failed a h = omega arith
by_result-settled x broken a h = absurd h
by_result-settled x (accepted fd) a h = elim (Bool-cases a.has_callback) [
  | inl e ↦ rw e (omega (arith, disposed-append x a.trace (handed_over fd ∷ [])))
  | inr e ↦ rw e (omega (arith, disposed-append x a.trace (closed fd ∷ [])))
]
by_result-settled x (exhausted second idle) a h = omega (
  arith,
  disposed-close_if x second (close_if a.idle_fd a),
  disposed-close_if x a.idle_fd a,
  times-append x (held second) (held idle),
)

-- In any row of reports for which `Accept` does not abort, HandleRead returns, and every descriptor that the
-- system gave was as often closed or handed over as it was given, but for the idle one that the acceptor
-- holds, if it holds one.
pub handle_reads-settled :
    (x : ℕ) (rs : List AcceptResult) (a : Acceptor)
    → All IsHandled rs
    → Returns (handle_reads rs a) λ b. settled x b ≡ settled x a + times x (given_all rs)
unfolding handle_reads handle_read times
handle_reads-settled x [] a h = omega arith
handle_reads-settled x (r ∷ rs) a (first, h) =
    Returns->>= (by_result r a) (handle_reads rs) _ _ (by_result-settled x r a first) λ c k.
      Returns-mono (handle_reads rs c) _ _ (handle_reads-settled x rs c h)
        λ b l. omega (arith, l, k, times-append x (given r) (given_all rs))
