-- ===== src/Threads/MutexLock/Deadline.antt =====
-- The deadline of `Condition::waitForSeconds` in framework/thread/src/Condition.cpp. The clock, and the
-- conversion of the seconds from a double, are arguments; the seconds are not negative.
use thread_library.Prelude.{ℕ, ◌+◌, ◌*◌, ◌/◌, ◌%◌, ◌<◌, ◌≡◌, arith}

pub record Timespec : Type 0 where
  pub tv_sec : ℕ
  pub tv_nsec : ℕ

abbrev nano_seconds_per_second : ℕ
nano_seconds_per_second = 1000000000

unfoldable deadline : ℕ → Timespec → Timespec
deadline nanoseconds now = record {
  tv_sec = now.tv_sec + (now.tv_nsec + nanoseconds) / nano_seconds_per_second;
  tv_nsec = (now.tv_nsec + nanoseconds) % nano_seconds_per_second;
}

abbrev pub in_nanoseconds : Timespec → ℕ
in_nanoseconds t = t.tv_sec * nano_seconds_per_second + t.tv_nsec

-- The deadline is the given number of nanoseconds after the clock's time, and its own nanoseconds are
-- below a second, as pthread_cond_timedwait requires.
deadline_lem :
    (nanoseconds : ℕ) (now : Timespec)
    → (in_nanoseconds (deadline nanoseconds now) ≡ in_nanoseconds now + nanoseconds)
      × ((deadline nanoseconds now).tv_nsec < nano_seconds_per_second)
unfolding deadline
deadline_lem n t = (omega arith, omega arith)
