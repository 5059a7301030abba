-- ===== src/Prelude/Slices.antt =====
-- What a write, a move or a resize of a vector does to its slices.
use Prim.Native.Nat.{ℕ, zero, suc, ◌+◌, ◌-◌, ◌≤◌}
use mathlib.Core.Path.{◌≡◌, refl, ap, ◌∙◌, sym}
use mathlib.Core.List.{List, [], ◌∷◌, ◌++◌}
use native.Mathlib.Omega.{arith}
use native.Mathlib.Nat.{suc-add}
use thread_library.Prelude.Lists.{length, take, drop, slice, write_at, resize, drop-take, drop-drop}

module _ {ℓ} {A : Type ℓ} where
  take-write_at_end :
      (xs ds : List A) (n : ℕ)
      → n + length ds ≤ length xs
      → take (n + length ds) (write_at xs n ds) ≡ take n xs ++ ds
  take-write_at_end [] [] zero h = refl
  take-write_at_end [] (d ∷ ds) zero h = absurd (omega arith)
  take-write_at_end [] ds (suc n) h = absurd (omega arith)
  take-write_at_end (x ∷ xs) [] zero h = refl
  take-write_at_end (x ∷ xs) (d ∷ ds) zero h =
      ap (λ m. take m (d ∷ write_at xs zero ds))
        (let e : 0 + suc (length ds) ≡ suc (0 + length ds) = omega arith in e)
      ∙ ap (λ t. d ∷ t) (take-write_at_end xs ds zero (omega arith))
  take-write_at_end (x ∷ xs) ds (suc n) h =
      rw (suc-add n (length ds)) (ap (λ t. x ∷ t) (take-write_at_end xs ds n (omega arith)))

  -- Bytes written just behind a slice extend it.
  pub slice-write_at_end :
      (xs ds : List A) (i n : ℕ)
      → i + n + length ds ≤ length xs
      → slice (write_at xs (i + n) ds) i (n + length ds) ≡ slice xs i n ++ ds
  slice-write_at_end xs ds zero n h =
      rw (let e : 0 + n ≡ n = omega arith in e) (take-write_at_end xs ds n (omega arith))
  slice-write_at_end [] ds (suc i) n h = absurd (omega arith)
  slice-write_at_end (x ∷ xs) ds (suc i) n h =
      rw (suc-add i n) (slice-write_at_end xs ds i n (omega arith))

  take-write_at_front :
      (xs ds : List A) (n : ℕ)
      → length ds + n ≤ length xs
      → take (length ds + n) (write_at xs 0 ds) ≡ ds ++ slice xs (length ds) n
  take-write_at_front xs [] n h = nothing xs
    where
      nothing : (ys : List A) → take (0 + n) (write_at ys 0 []) ≡ take n ys
      nothing [] = ap (λ m. take m []) (let e : 0 + n ≡ n = omega arith in e)
      nothing (y ∷ ys) = ap (λ m. take m (y ∷ ys)) (let e : 0 + n ≡ n = omega arith in e)
  take-write_at_front [] (d ∷ ds) n h = absurd (omega arith)
  take-write_at_front (x ∷ xs) (d ∷ ds) n h =
      rw (suc-add (length ds) n) (ap (λ t. d ∷ t) (take-write_at_front xs ds n (omega arith)))

  -- Bytes written just before a slice extend it to the front.
  pub slice-write_at_front :
      (xs ds : List A) (i n : ℕ)
      → i + length ds + n ≤ length xs
      → slice (write_at xs i ds) i (length ds + n) ≡ ds ++ slice xs (i + length ds) n
  slice-write_at_front xs ds zero n h =
      rw (let e : 0 + length ds ≡ length ds = omega arith in e)
        (take-write_at_front xs ds n (omega arith))
  slice-write_at_front [] ds (suc i) n h = absurd (omega arith)
  slice-write_at_front (x ∷ xs) ds (suc i) n h =
      rw (suc-add i (length ds)) (slice-write_at_front xs ds i n (omega arith))

  take-resize :
      (xs : List A) (m n : ℕ) (a : A) → n ≤ length xs → n ≤ m → take n (resize xs m a) ≡ take n xs
  take-resize xs m zero a h k = refl
  take-resize [] m (suc n) a h k = absurd (omega arith)
  take-resize (x ∷ xs) zero (suc n) a h k = absurd (omega arith)
  take-resize (x ∷ xs) (suc m) (suc n) a h k =
      ap (λ t. x ∷ t) (take-resize xs m n a (omega arith) (omega arith))

  -- `resize` keeps every slice that lies in both vectors.
  pub slice-resize :
      (xs : List A) (m i n : ℕ) (a : A)
      → i + n ≤ length xs
      → i + n ≤ m
      → slice (resize xs m a) i n ≡ slice xs i n
  slice-resize xs m zero n a h k = take-resize xs m n a (omega arith) (omega arith)
  slice-resize [] m (suc i) n a h k = absurd (omega arith)
  slice-resize (x ∷ xs) zero (suc i) n a h k = absurd (omega arith)
  slice-resize (x ∷ xs) (suc m) (suc i) n a h k =
      slice-resize xs m i n a (omega arith) (omega arith)

  -- The end of a slice.
  pub slice-drop : (xs : List A) (i k n : ℕ) → slice xs (i + k) (n - k) ≡ drop k (slice xs i n)
  slice-drop xs i k n = rw (← drop-drop i k xs) (sym (drop-take k n (drop i xs)))

  take-take : (k n : ℕ) (xs : List A) → k ≤ n → take k (take n xs) ≡ take k xs
  take-take zero n xs h = refl
  take-take (suc k) zero xs h = absurd (omega arith)
  take-take (suc k) (suc n) [] h = refl
  take-take (suc k) (suc n) (x ∷ xs) h = ap (λ t. x ∷ t) (take-take k n xs (omega arith))

  -- The beginning of a slice.
  pub slice-take : (xs : List A) (i k n : ℕ) → k ≤ n → slice xs i k ≡ take k (slice xs i n)
  slice-take xs i k n h = sym (take-take k n (drop i xs) h)
