-- ===== src/Net/Endian.antt =====
-- framework/net/include/Endian.hpp, on a little-endian host. A w-byte integer is the number that its
-- bit pattern stands for, so signed and unsigned types share one model.
use mathlib.Core.List.{reverse-reverse, reverse-cons}
use thread_library.Prelude.{
  ℕ, zero, suc, ◌+◌, ◌*◌, ◌/◌, ◌%◌, ◌^◌, ◌<◌, ◌≡◌, refl, ap, ◌∙◌, List, [], ◌∷◌, ◌++◌, reverse,
  arith, length, length-append, All,
}
use native.Mathlib.Nat.{pow-suc}

-- The w bytes of an integer in the host's memory, lowest first.
unfoldable pub to_memory : ℕ → ℕ → List ℕ
to_memory zero v = []
to_memory (suc w) v = v % 256 ∷ to_memory w (v / 256)

-- The integer that `memcpy` reads from such bytes.
unfoldable pub of_memory : List ℕ → ℕ
of_memory [] = 0
of_memory (b ∷ bs) = b + 256 * of_memory bs

-- `htobe16`, `htobe32` and `htobe64`.
unfoldable pub host_to_network : ℕ → ℕ → ℕ
host_to_network w v = of_memory (reverse (to_memory w v))

-- `be16toh`, `be32toh` and `be64toh`.
unfoldable pub network_to_host : ℕ → ℕ → ℕ
network_to_host w v = of_memory (reverse (to_memory w v))

of_memory-to_memory : (w v : ℕ) → v < 256 ^ w → of_memory (to_memory w v) ≡ v
unfolding of_memory to_memory
of_memory-to_memory zero v h = omega arith
of_memory-to_memory (suc w) v h =
    omega (arith, pow-suc 256 w, of_memory-to_memory w (v / 256) (omega (arith, pow-suc 256 w)))

to_memory-of_memory :
    (bs : List ℕ) → All (λ b. b < 256) bs → to_memory (length bs) (of_memory bs) ≡ bs
unfolding of_memory to_memory
to_memory-of_memory [] h = refl
to_memory-of_memory (b ∷ bs) h =
    let low : (b + 256 * of_memory bs) % 256 ≡ b = omega arith in
    let high : (b + 256 * of_memory bs) / 256 ≡ of_memory bs = omega arith in
    ap (λ t. t ∷ to_memory (length bs) ((b + 256 * of_memory bs) / 256)) low
    ∙ ap (λ t. b ∷ to_memory (length bs) t) high
    ∙ ap (λ t. b ∷ t) (to_memory-of_memory bs h.1)

pub length-to_memory : (w v : ℕ) → length (to_memory w v) ≡ w
unfolding to_memory
length-to_memory zero v = refl
length-to_memory (suc w) v = ap suc (length-to_memory w (v / 256))

pub length-reverse : (bs : List ℕ) → length (reverse bs) ≡ length bs
length-reverse [] = refl
length-reverse (b ∷ bs) =
    omega
      (arith, ap length (reverse-cons b bs), length-append (reverse bs) (b ∷ []), length-reverse bs)

to_memory-bytes : (w v : ℕ) → All (λ b. b < 256) (to_memory w v)
unfolding to_memory
to_memory-bytes zero v = tt
to_memory-bytes (suc w) v = (omega arith, to_memory-bytes w (v / 256))

All-append {ℓ} : (P : ℕ → Type ℓ) (xs ys : List ℕ) → All P xs → All P ys → All P (xs ++ ys)
All-append P [] ys h k = k
All-append P (x ∷ xs) ys h k = (h.0, All-append P xs ys h.1 k)

All-reverse {ℓ} : (P : ℕ → Type ℓ) (xs : List ℕ) → All P xs → All P (reverse xs)
All-reverse P [] h = tt
All-reverse P (x ∷ xs) h =
    rw (reverse-cons x xs) (All-append P (reverse xs) (x ∷ []) (All-reverse P xs h.1) (h.0, tt))

-- The bytes of a converted integer in memory are those of the integer in network order: highest first.
pub to_memory-host_to_network :
    (w v : ℕ) → to_memory w (host_to_network w v) ≡ reverse (to_memory w v)
unfolding host_to_network
to_memory-host_to_network w v =
    ap (λ k. to_memory k (of_memory (reverse (to_memory w v)))) (sym-length)
    ∙ to_memory-of_memory (reverse (to_memory w v)) (All-reverse _ _ (to_memory-bytes w v))
  where
    sym-length : w ≡ length (reverse (to_memory w v))
    sym-length = omega (arith, length-reverse (to_memory w v), length-to_memory w v)

-- The two conversions undo each other.
network_to_host-host_to_network :
    (w v : ℕ) → v < 256 ^ w → network_to_host w (host_to_network w v) ≡ v
unfolding network_to_host
network_to_host-host_to_network w v h =
    ap (λ bs. of_memory (reverse bs)) (to_memory-host_to_network w v)
    ∙ ap of_memory (reverse-reverse (to_memory w v))
    ∙ of_memory-to_memory w v h

-- The integer that is read from bytes in network order.
pub network_to_host-of_memory :
    (w v : ℕ) → v < 256 ^ w → network_to_host w (of_memory (reverse (to_memory w v))) ≡ v
unfolding host_to_network
network_to_host-of_memory w v h = network_to_host-host_to_network w v h
