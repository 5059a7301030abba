-- ===== src/Log/FixedBuffer.antt =====
-- framework/log/include/FixBuffer.hpp: an array of SIZE bytes with a position behind the bytes written.
use thread_library.Prelude.{
  ℕ, zero, suc, ◌+◌, ◌-◌, ◌≤◌, ◌<◌, ◌≡◌, refl, sym, ap, ◌∙◌, subst, List, [], ◌∷◌, ◌++◌, arith,
  length, take, write_at, replicate, ltb, if◌then◌else◌, lt→ltb, le→ltb, length-write_at,
  length-replicate, length-append, append_assoc, append-nil, take-append_left, length-take_of_le,
}
use thread_library.Prelude.Slices.{slice-write_at_end, slice-take}

-- Bytes that are copied to a position. What goes behind the end makes the array longer, so that an overflow
-- shows in its length.
abbrev overwrite : List ℕ → ℕ → List ℕ → List ℕ
overwrite [] zero ds = ds
overwrite [] (suc i) ds = 0 ∷ overwrite [] i ds
overwrite (x ∷ xs) (suc i) ds = x ∷ overwrite xs i ds
overwrite (x ∷ xs) zero [] = x ∷ xs
overwrite (x ∷ xs) zero (d ∷ ds) = d ∷ overwrite xs zero ds

overwrite-write_at :
    (xs : List ℕ) (i : ℕ) (ds : List ℕ)
    → i + length ds ≤ length xs
    → overwrite xs i ds ≡ write_at xs i ds
overwrite-write_at [] zero [] h = refl
overwrite-write_at [] zero (d ∷ ds) h = absurd (omega (arith, h))
overwrite-write_at [] (suc i) ds h = absurd (omega (arith, h))
overwrite-write_at (x ∷ xs) (suc i) ds h =
    ap (λ t. x ∷ t) (overwrite-write_at xs i ds (omega (arith, h)))
overwrite-write_at (x ∷ xs) zero [] h = refl
overwrite-write_at (x ∷ xs) zero (d ∷ ds) h =
    ap (λ t. d ∷ t) (overwrite-write_at xs zero ds (omega (arith, h)))

pub record FixedBuffer : Type 0 where
  pub bytes : List ℕ
  pub current : ℕ

unfoldable pub create : ℕ → FixedBuffer
create size = record { bytes = replicate size 0; current = 0 }

unfoldable pub left_size : FixedBuffer → ℕ
left_size b = length b.bytes - b.current

-- `getCurrentPtr` with a write through it, and `addCurrentPtr`.
unfoldable pub write_current : FixedBuffer → List ℕ → FixedBuffer
write_current b ds = record b { bytes = overwrite b.bytes b.current ds }

unfoldable pub add_current : FixedBuffer → ℕ → FixedBuffer
add_current b len = record b { current = b.current + len }

unfoldable pub append : FixedBuffer → List ℕ → FixedBuffer
unfolding left_size write_current add_current
append b ds =
    if ltb (length ds) (left_size b) then add_current (write_current b ds) (length ds) else b

unfoldable pub reset : FixedBuffer → FixedBuffer
reset b = record b { current = 0 }

-- `toString`, or `getDataPtr` with `getLength`.
abbrev pub text : FixedBuffer → List ℕ
text b = take b.current b.bytes

abbrev pub IsValid : FixedBuffer → Type 0
IsValid b = b.current ≤ length b.bytes

-- A valid buffer of the same size that holds `xs`.
pub record Holds (size : ℕ) (xs : List ℕ) (b : FixedBuffer) : Type 0 where
  pub valid : IsValid b
  pub held : text b ≡ xs
  pub sized : length b.bytes ≡ size

pub create-Holds : (size : ℕ) → Holds size [] (create size)
unfolding create
create-Holds size = record { valid = omega arith; held = refl; sized = length-replicate size 0 }

pub left_size-create : (size : ℕ) → left_size (create size) ≡ size
unfolding left_size create
left_size-create size =
    let e : length (create size).bytes ≡ size = length-replicate size 0 in omega (arith, e)

pub reset-Holds :
    {size : ℕ} {xs : List ℕ} (b : FixedBuffer) → Holds size xs b → Holds size [] (reset b)
unfolding reset
reset-Holds b h = record { valid = omega arith; held = refl; sized = h.sized }

written_at :
    (b : FixedBuffer) (ds behind : List ℕ)
    → IsValid b
    → length ds + length behind ≤ left_size b
    → Holds (length b.bytes) (text b ++ ds) (record b {
      bytes = write_at b.bytes b.current (ds ++ behind);
      current = b.current + length ds;
    })
unfolding left_size
written_at b ds behind v room = record {
  valid = omega (arith, length-write_at b.bytes b.current (ds ++ behind));
  held = cut;
  sized = length-write_at b.bytes b.current (ds ++ behind);
}
  where
    whole :
        take (b.current + length (ds ++ behind)) (write_at b.bytes b.current (ds ++ behind))
        ≡ text b ++ (ds ++ behind)
    whole =
        ap (λ k. take (b.current + length (ds ++ behind)) (write_at b.bytes k (ds ++ behind)))
          (let e : b.current ≡ 0 + b.current = omega arith in e)
        ∙ slice-write_at_end b.bytes (ds ++ behind) 0 b.current
            (omega (arith, length-append ds behind))

    cut : take (b.current + length ds) (write_at b.bytes b.current (ds ++ behind)) ≡ text b ++ ds
    cut =
        slice-take (write_at b.bytes b.current (ds ++ behind)) 0 (b.current + length ds)
          (b.current + length (ds ++ behind)) (omega (arith, length-append ds behind))
        ∙ ap (take (b.current + length ds)) (whole ∙ sym (append_assoc (text b) ds behind))
        ∙ ap (λ k. take k ((text b ++ ds) ++ behind)) size
        ∙ take-append_left (text b ++ ds) behind
      where
        size : b.current + length ds ≡ length (text b ++ ds)
        size = omega (arith, length-append (text b) ds, length-take_of_le b.current b.bytes v)

-- Bytes that are written at the position and then counted extend the text; what is written behind them
-- does not matter.
pub written-Holds :
    (b : FixedBuffer) (ds behind : List ℕ)
    → IsValid b
    → length ds + length behind ≤ left_size b
    → Holds
        (length b.bytes)
        (text b ++ ds)
        (add_current (write_current b (ds ++ behind)) (length ds))
unfolding left_size write_current add_current
written-Holds b ds behind v room =
    let inside : b.current + length (ds ++ behind) ≤ length b.bytes =
      omega (arith, v, room, length-append ds behind) in
    subst
      (λ xs.
        Holds (length b.bytes) (text b ++ ds)
          (record b { bytes = xs; current = b.current + length ds }))
      (sym (overwrite-write_at b.bytes b.current (ds ++ behind) inside))
      (written_at b ds behind v room)

-- `append` adds all of the bytes if fewer than the room that is left, and otherwise none.
pub append_lem :
    (b : FixedBuffer) (ds : List ℕ)
    → IsValid b
    → (length ds < left_size b → Holds (length b.bytes) (text b ++ ds) (append b ds))
      × (left_size b ≤ length ds → append b ds ≡ b)
unfolding append
append_lem b ds v = (
  λ h. rw (lt→ltb _ _ h) (
      subst
        (λ xs. Holds (length b.bytes) (text b ++ ds) (add_current (write_current b xs) (length ds)))
        (append-nil ds) (written-Holds b ds [] v (omega (arith, h)))),
  λ h. rw (le→ltb _ _ h),
)
