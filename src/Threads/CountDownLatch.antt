-- ===== src/Threads/CountDownLatch.antt =====
-- framework/thread/include/CountDownLatch.hpp and framework/thread/src/CountDownLatch.cpp. Each critical
-- section is one step.
use thread_library.Prelude.{
  ℕ, zero, suc, ◌+◌, ◌<◌, ◌≤◌, ◌≡◌, refl, Bool, true, false, arith, if◌then◌else◌,
}
use thread_library.Prelude.Int.{ℤ, pos, negsuc}

pub record CountDownLatch : Type 0 where
  pub count : ℤ
  -- how often `notifyAll` was called
  pub notified : ℕ

unfoldable pub create : ℤ → CountDownLatch
create count = record { count = count; notified = 0 }

abbrev decrement : ℤ → ℤ
decrement (pos zero) = negsuc 0
decrement (pos (suc n)) = pos n
decrement (negsuc n) = negsuc (suc n)

abbrev is_zero : ℤ → Bool
is_zero (pos zero) = true
is_zero _ = false

abbrev is_positive : ℤ → Bool
is_positive (pos (suc n)) = true
is_positive _ = false

-- Whether `Wait` goes on waiting.
unfoldable wait_blocks : CountDownLatch → Bool
wait_blocks l = is_positive l.count

unfoldable count_down : CountDownLatch → CountDownLatch
count_down l =
    let c = decrement l.count in
    record { count = c; notified = if is_zero c then l.notified + 1 else l.notified }

-- `n` calls in a row.
unfoldable count_downs : ℕ → CountDownLatch → CountDownLatch
unfolding count_down
count_downs zero l = l
count_downs (suc n) l = count_downs n (count_down l)

below_zero :
    (k n m : ℕ)
    → let l = count_downs k (record { count = negsuc n; notified = m }) in
      (wait_blocks l ≡ false) × (l.notified ≡ m)
unfolding count_downs count_down wait_blocks
below_zero zero n m = (refl, refl)
below_zero (suc k) n m = below_zero k (suc n) m

-- A latch of at least one lets its waiting threads go on exactly from the last of as many calls of
-- CountDown on, at which it notifies them; it notifies them only there.
count_downs_lem :
    (n k : ℕ)
    → let l = count_downs k (create (pos (suc n))) in
      (k < suc n → (wait_blocks l ≡ true) × (l.notified ≡ 0))
      × (suc n ≤ k → (wait_blocks l ≡ false) × (l.notified ≡ 1))
unfolding count_downs count_down wait_blocks create
count_downs_lem n zero = (λ h. (refl, refl), λ h. absurd (omega (arith, h)))
count_downs_lem zero (suc zero) = (λ h. absurd (omega (arith, h)), λ h. (refl, refl))
count_downs_lem zero (suc (suc k)) = (λ h. absurd (omega (arith, h)), λ h. below_zero k 0 1)
count_downs_lem (suc n) (suc k) = (
  λ h. (count_downs_lem n k).0 (omega (arith, h)),
  λ h. (count_downs_lem n k).1 (omega (arith, h)),
)
