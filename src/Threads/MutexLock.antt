-- ===== src/Threads/MutexLock.antt =====
-- framework/thread/include/MutexLock.hpp, framework/thread/src/MutexLock.cpp and, for the waits,
-- framework/thread/src/Condition.cpp. A thread is at one of the places between the statements of lock,
-- unlock and Condition::wait; any thread may make the next step. The pthread mutex is the thread that
-- owns it: to lock it returns only when nobody does. Thread identifiers are positive.
pub mod Exclusion
pub mod Deadline
use thread_library.Prelude.{
  ℕ, ◌+◌, Bool, true, false, ◌≡◌, ◌<◌, Option, none, some, ◌==◌, if◌then◌else◌,
}

pub record MutexLock : Type 0 where
  -- the state of `mutex_`
  pub owner : Option ℕ
  pub holder_pid : ℕ

unfoldable pub create : MutexLock
create = record { owner = none; holder_pid = 0 }

unfoldable pub is_locked_by_this_thread : ℕ → MutexLock → Bool
is_locked_by_this_thread tid m = m.holder_pid == tid

unfoldable pub assign_holder_pid : ℕ → MutexLock → MutexLock
assign_holder_pid tid m = record m { holder_pid = tid }

unfoldable pub reset_holder_pid : MutexLock → MutexLock
reset_holder_pid m = record m { holder_pid = 0 }

-- `entered` is before assignHolderPid in lock, `leaves` after resetHolderPid in unlock, `will_wait`
-- behind the constructor of ResetHolderPid, and `woken` before its destructor.
pub data Place : Type 0 where
  outside entered inside leaves will_wait waits woken : Place

pub record System : Type 0 where
  pub place : ℕ → Place
  pub mutex : MutexLock

unfoldable pub initial : System
unfolding create
initial = record { place = λ t. outside; mutex = create }

unfoldable pub moved : ℕ → Place → (ℕ → Place) → ℕ → Place
moved t p f u = if u == t then p else f u

-- Thread `t` comes to place `p`, and leaves the mutex as `m`.
abbrev pub to : ℕ → Place → MutexLock → System → System
to t p m s = record { place = moved t p s.place; mutex = m }

-- The statements of `lock`, `unlock` and `Condition::wait`, by thread `t`.
pub data Step (t : ℕ) (s : System) : System → Type 0 where
  locks :
      s.place t ≡ outside
      → s.mutex.owner ≡ none
      → Step t s (to t entered (record s.mutex { owner = some t }) s)
  assigns : s.place t ≡ entered → Step t s (to t inside (assign_holder_pid t s.mutex) s)
  resets : s.place t ≡ inside → Step t s (to t leaves (reset_holder_pid s.mutex) s)
  unlocks : s.place t ≡ leaves → Step t s (to t outside (record s.mutex { owner = none }) s)
  resets_to_wait : s.place t ≡ inside → Step t s (to t will_wait (reset_holder_pid s.mutex) s)
  sleeps : s.place t ≡ will_wait → Step t s (to t waits (record s.mutex { owner = none }) s)
  wakes :
      s.place t ≡ waits
      → s.mutex.owner ≡ none
      → Step t s (to t woken (record s.mutex { owner = some t }) s)
  reassigns : s.place t ≡ woken → Step t s (to t inside (assign_holder_pid t s.mutex) s)

pub data Reachable : System → Type 0 where
  starts : Reachable initial
  goes : {s u : System} → Reachable s → (t : ℕ) → (0 < t) → Step t s u → Reachable u
