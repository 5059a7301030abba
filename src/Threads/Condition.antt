-- ===== src/Threads/Condition.antt =====
-- framework/thread/include/Condition.hpp and framework/thread/src/Condition.cpp, seen from a critical
-- section: how many threads wait for a condition, and how many have been woken and will test their loop
-- again. pthread_cond_signal wakes one if any waits; a thread may also wake on its own.
use thread_library.Prelude.{
  ℕ, ◌+◌, ◌-◌, ◌<◌, ◌≤◌, ◌≡◌, ltb, if◌then◌else◌, arith, ◌⊎◌, inl, inr, dec_lt,
}

pub record Waiters : Type 0 where
  pub sleeping : ℕ
  pub woken : ℕ

abbrev pub nobody : Waiters
nobody = record { sleeping = 0; woken = 0 }

unfoldable pub wait : Waiters → Waiters
wait w = record w { sleeping = w.sleeping + 1 }

-- One thread that waits, if any does, is woken: by `notify`, or on its own.
unfoldable pub notify : Waiters → Waiters
notify w = if ltb 0 w.sleeping then record { sleeping = w.sleeping - 1; woken = w.woken + 1 } else w

unfoldable pub notify_all : Waiters → Waiters
notify_all w = record { sleeping = 0; woken = w.sleeping + w.woken }

-- A woken thread has the mutex again and tests its loop.
abbrev pub returned : Waiters → Waiters
returned w = record w { woken = w.woken - 1 }

-- `w` owes no wake-up for `n` things to be had: if a thread sleeps, so many are awake.
abbrev pub Owes : ℕ → Waiters → Type 0
Owes n w = 0 < w.sleeping → n ≤ w.woken

-- The same as a choice.
pub Owes-choice : (n : ℕ) (w : Waiters) → Owes n w → (w.sleeping ≡ 0) ⊎ (n ≤ w.woken)
Owes-choice n w h = elim (dec_lt 0 w.sleeping) [ yes k ↦ inr (h k) | no k ↦ inl (omega (arith, k)) ]

pub notify-Owes : (n : ℕ) (w : Waiters) → Owes n w → Owes (n + 1) (notify w)
unfolding notify
notify-Owes n w h k = ground (arith, h (ground arith))

pub rouse-Owes : (n : ℕ) (w : Waiters) → Owes n w → Owes n (notify w)
unfolding notify
rouse-Owes n w h k = ground (arith, h (ground arith))

pub notify-still : (w : Waiters) → w.sleeping ≡ 0 → (notify w).sleeping ≡ 0
unfolding notify
notify-still w h = ground arith
