-- ===== src/Threads/CurrentThread.antt =====
-- framework/thread/include/CurrentThread.hpp and CurrentThread of framework/thread/src/Thread.cpp: what a
-- thread keeps of itself. What gettid(2) answers and what snprintf prints of it are arguments.
use thread_library.Prelude.{
  ℕ, ◌+◌, ◌*◌, ◌/◌, ◌%◌, ◌<◌, ◌≡◌, ◌↔◌, Bool, List, [], ◌∷◌, length, take, ◌==◌, if◌then◌else◌,
  arith, Bool-cases, inl, inr, ==_false, refl,
}
use thread_library.Threads.MutexLock.Deadline.{Timespec, in_nanoseconds}

pub record CurrentThread : Type 0 where
  pub cached_tid : ℕ
  pub tid_string : List ℕ
  pub tid_string_length : ℕ
  pub thread_name : List ℕ

-- "unknow"
abbrev unknown_name : List ℕ
unknown_name = b'u' ∷ b'n' ∷ b'k' ∷ b'n' ∷ b'o' ∷ b'w' ∷ []

unfoldable pub create : CurrentThread
create = record {
  cached_tid = 0;
  tid_string = [];
  tid_string_length = 6;
  thread_name = unknown_name;
}

-- snprintf writes 31 bytes at most, and answers with the length of the whole text.
unfoldable cache_tid : (ℕ → List ℕ) → ℕ → CurrentThread → CurrentThread
cache_tid print tid c =
    if c.cached_tid == 0
    then record c {
      cached_tid = tid;
      tid_string = take 31 (print tid);
      tid_string_length = length (print tid);
    }
    else c

unfoldable pub get_tid : (ℕ → List ℕ) → ℕ → CurrentThread → ℕ × CurrentThread
unfolding cache_tid
get_tid print tid c =
    let d = if c.cached_tid == 0 then cache_tid print tid c else c in (d.cached_tid, d)

unfoldable is_main_thread : (ℕ → List ℕ) → ℕ → ℕ → CurrentThread → Bool × CurrentThread
unfolding get_tid
is_main_thread print tid pid c = let r = get_tid print tid c in (r.0 == pid, r.1)

-- The time that `sleepUsec` gives to nanosleep(2).
unfoldable sleep_usec : ℕ → Timespec
sleep_usec usec = record { tv_sec = usec / (1000 * 1000); tv_nsec = usec % (1000 * 1000) }

-- sleepUsec sleeps as long as it was asked exactly for a whole number of seconds, and shorter for any
-- other time: 999 of each 1000 nanoseconds behind the last whole second are missing.
sleep_usec_lem :
    (usec : ℕ)
    → (in_nanoseconds (sleep_usec usec) + 999 * (usec % 1000000) ≡ usec * 1000)
      × (in_nanoseconds (sleep_usec usec) ≡ usec * 1000 ↔ usec % 1000000 ≡ 0)
unfolding sleep_usec
sleep_usec_lem usec = (omega arith, (λ h. omega (arith, h), λ h. omega (arith, h)))

-- A thread asks the system once: whatever gettid(2) would answer later, getTid gives its first answer.
get_tid_once :
    (print : ℕ → List ℕ) (tid later : ℕ) (c : CurrentThread)
    → 0 < tid
    → let r = get_tid print tid c in get_tid print later r.1 ≡ r
unfolding get_tid cache_tid
get_tid_once print tid later c h = elim (Bool-cases (c.cached_tid == 0)) [
  | inl fresh ↦ rw fresh (rw (==_false tid 0 (λ e. absurd (omega (arith, h, e)))) refl)
  | inr known ↦ rw known (rw known refl)
]
