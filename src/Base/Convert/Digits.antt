-- ===== src/Base/Convert/Digits.antt =====
-- What `convert` prints reads back as the number, and how long it is.
use mathlib.Core.List.{reverse-cons, reverse-append}
use native.Mathlib.Nat.{pow-suc}
use thread_library.Prelude.{
  ℕ, zero, suc, ◌+◌, ◌-◌, ◌*◌, ◌/◌, ◌%◌, ◌^◌, ◌≤◌, ◌<◌, ◌≡◌, refl, ap, ◌∙◌, inl, inr, List, [], ◌∷◌,
  ◌++◌, reverse, arith, length, length-append, All, ◌==◌, if◌then◌else◌, true, false, Bool-cases,
  leb, ==_iff, ==_false,
}
use thread_library.Prelude.Int.{ℤ, pos, negsuc}
use thread_library.Base.Convert.{
  negate, quotient, remainder, is_zero, digits, digits_hex, char_at, zero_at, convert_loop, convert,
  convert_hex_loop, convert_hex, max_digits, max_hex_digits,
}

-- The value of a row of digits, highest first, with base and the value of a digit given.
abbrev horner : ℕ → (ℕ → ℕ) → ℕ → List ℕ → ℕ
horner base val acc [] = acc
horner base val acc (c ∷ cs) = horner base val (acc * base + val c) cs

-- The same, lowest first.
abbrev low_value : ℕ → (ℕ → ℕ) → List ℕ → ℕ
low_value base val [] = 0
low_value base val (c ∷ cs) = val c + low_value base val cs * base

horner-append :
    (base : ℕ) (val : ℕ → ℕ) (acc : ℕ) (xs ys : List ℕ)
    → horner base val acc (xs ++ ys) ≡ horner base val (horner base val acc xs) ys
horner-append base val acc [] ys = refl
horner-append base val acc (x ∷ xs) ys = horner-append base val (acc * base + val x) xs ys

horner-reverse :
    (base : ℕ) (val : ℕ → ℕ) (ds : List ℕ) → horner base val 0 (reverse ds) ≡ low_value base val ds
horner-reverse base val [] = refl
horner-reverse base val (d ∷ ds) =
    ap (horner base val 0) (reverse-cons d ds)
    ∙ horner-append base val 0 (reverse ds) (d ∷ [])
    ∙ ap (λ t. t * base + val d) (horner-reverse base val ds)
    ∙ omega arith

-- The decimal number that a text stands for.
abbrev digit_value : ℕ → ℕ
digit_value c = c - 48

abbrev pub read_decimal : List ℕ → ℤ
read_decimal [] = pos 0
read_decimal (c ∷ cs) =
    if c == b'-'
    then negate (horner 10 digit_value 0 cs)
    else pos (horner 10 digit_value 0 (c ∷ cs))

abbrev hex_value : ℕ → ℕ
hex_value c = if leb 65 c then c - 55 else c - 48

abbrev magnitude : ℤ → ℕ
magnitude (pos n) = n
magnitude (negsuc n) = suc n

abbrev IsDigit : ℕ → Type 0
IsDigit c = (48 ≤ c) × (c < 58)

magnitude-negate : (n : ℕ) → magnitude (negate n) ≡ n
magnitude-negate zero = refl
magnitude-negate (suc n) = refl

magnitude-quotient : (i : ℤ) → magnitude (quotient i) ≡ magnitude i / 10
magnitude-quotient (pos n) = refl
magnitude-quotient (negsuc n) = magnitude-negate (suc n / 10)

is_zero_lem : (i : ℤ) → is_zero i ≡ true → magnitude i ≡ 0
is_zero_lem (pos n) h = ground arith
is_zero_lem (negsuc n) h = cc

not_zero : (i : ℤ) → is_zero i ≡ false → 0 < magnitude i
not_zero (pos n) h = ground arith
not_zero (negsuc n) h = omega arith

small_table : (d : ℕ) → d < 10 → char_at digits (9 + d) ≡ 48 + d
small_table zero h = refl
small_table (suc zero) h = refl
small_table (suc (suc zero)) h = refl
small_table (suc (suc (suc zero))) h = refl
small_table (suc (suc (suc (suc zero)))) h = refl
small_table (suc (suc (suc (suc (suc zero))))) h = refl
small_table (suc (suc (suc (suc (suc (suc zero)))))) h = refl
small_table (suc (suc (suc (suc (suc (suc (suc zero))))))) h = refl
small_table (suc (suc (suc (suc (suc (suc (suc (suc zero)))))))) h = refl
small_table (suc (suc (suc (suc (suc (suc (suc (suc (suc zero))))))))) h = refl
small_table (suc (suc (suc (suc (suc (suc (suc (suc (suc (suc d)))))))))) h = absurd (omega arith)

negative_table : (d : ℕ) → d < 10 → zero_at (negate d) ≡ 48 + d
negative_table zero h = refl
negative_table (suc zero) h = refl
negative_table (suc (suc zero)) h = refl
negative_table (suc (suc (suc zero))) h = refl
negative_table (suc (suc (suc (suc zero)))) h = refl
negative_table (suc (suc (suc (suc (suc zero))))) h = refl
negative_table (suc (suc (suc (suc (suc (suc zero)))))) h = refl
negative_table (suc (suc (suc (suc (suc (suc (suc zero))))))) h = refl
negative_table (suc (suc (suc (suc (suc (suc (suc (suc zero)))))))) h = refl
negative_table (suc (suc (suc (suc (suc (suc (suc (suc (suc zero))))))))) h = refl
negative_table (suc (suc (suc (suc (suc (suc (suc (suc (suc (suc d)))))))))) h =
    absurd (omega arith)

hex_table : (d : ℕ) → d < 16 → hex_value (char_at digits_hex d) ≡ d
hex_table zero h = refl
hex_table (suc zero) h = refl
hex_table (suc (suc zero)) h = refl
hex_table (suc (suc (suc zero))) h = refl
hex_table (suc (suc (suc (suc zero)))) h = refl
hex_table (suc (suc (suc (suc (suc zero))))) h = refl
hex_table (suc (suc (suc (suc (suc (suc zero)))))) h = refl
hex_table (suc (suc (suc (suc (suc (suc (suc zero))))))) h = refl
hex_table (suc (suc (suc (suc (suc (suc (suc (suc zero)))))))) h = refl
hex_table (suc (suc (suc (suc (suc (suc (suc (suc (suc zero))))))))) h = refl
hex_table (suc (suc (suc (suc (suc (suc (suc (suc (suc (suc zero)))))))))) h = refl
hex_table (suc (suc (suc (suc (suc (suc (suc (suc (suc (suc (suc zero))))))))))) h = refl
hex_table (suc (suc (suc (suc (suc (suc (suc (suc (suc (suc (suc (suc zero)))))))))))) h = refl
hex_table (suc (suc (suc (suc (suc (suc (suc (suc (suc (suc (suc (suc (suc zero))))))))))))) h =
    refl
hex_table (suc (suc (suc (suc (suc (suc (suc (suc (suc (suc (suc (suc (suc (suc zero))))))))))))))
      h =
    refl
hex_table
      (suc (suc (suc (suc (suc (suc (suc (suc (suc (suc (suc (suc (suc (suc (suc zero)))))))))))))))
      h =
    refl
hex_table
      (suc
        (suc (suc (suc (suc (suc (suc (suc (suc (suc (suc (suc (suc (suc (suc (suc d))))))))))))))))
      h =
    absurd (omega arith)

zero_at_lem : (i : ℤ) → zero_at (remainder i) ≡ 48 + magnitude i % 10
zero_at_lem (pos n) = small_table (n % 10) (omega arith)
zero_at_lem (negsuc n) = negative_table (suc n % 10) (omega arith)

-- The loop prints the digits of the magnitude, lowest first, if the fuel covers them.
loop_value :
    (f : ℕ) (i : ℤ)
    → magnitude i < 10 ^ suc f
    → low_value 10 digit_value (convert_loop (suc f) i) ≡ magnitude i
unfolding convert_loop
loop_value zero i h = elim (Bool-cases (is_zero (quotient i))) [
  | inl last ↦
      rw (last, zero_at_lem i) (omega (arith, magnitude-quotient i, is_zero_lem (quotient i) last))
  | inr more ↦
      absurd (omega (arith, magnitude-quotient i, not_zero (quotient i) more, pow-suc 10 0))
]
loop_value (suc f) i h = elim (Bool-cases (is_zero (quotient i))) [
  | inl last ↦
      rw (last, zero_at_lem i) (omega (arith, magnitude-quotient i, is_zero_lem (quotient i) last))
  | inr more ↦
      rw (more, zero_at_lem i)
        (omega (
          arith,
          magnitude-quotient i,
          loop_value f (quotient i) (omega (arith, magnitude-quotient i, pow-suc 10 (suc f))),
        ))
]

loop-digits : (f : ℕ) (i : ℤ) → All IsDigit (convert_loop f i)
unfolding convert_loop
loop-digits zero i = tt
loop-digits (suc f) i = (
  rw (zero_at_lem i) (omega arith),
  elim (Bool-cases (is_zero (quotient i))) [
    | inl last ↦ rw last tt
    | inr more ↦ rw more (loop-digits f (quotient i))
  ],
)

length-loop : (f : ℕ) (i : ℤ) → length (convert_loop f i) ≤ f
unfolding convert_loop
length-loop zero i = omega arith
length-loop (suc f) i = elim (Bool-cases (is_zero (quotient i))) [
  | inl last ↦ rw last (omega arith)
  | inr more ↦ rw more (omega (arith, length-loop f (quotient i)))
]

All-append {ℓ} :
    {A : Type ℓ} (P : A → Type 0) (xs ys : List A) → All P xs → All P ys → All P (xs ++ ys)
All-append P [] ys h k = k
All-append P (x ∷ xs) ys h k = (h.0, All-append P xs ys h.1 k)

reverse-digits : (ds : List ℕ) → All IsDigit ds → All IsDigit (reverse ds)
reverse-digits [] h = tt
reverse-digits (d ∷ ds) h =
    rw (reverse-cons d ds)
      (All-append IsDigit (reverse ds) (d ∷ []) (reverse-digits ds h.1) (h.0, tt))

read_digits : (ds : List ℕ) → All IsDigit ds → read_decimal ds ≡ pos (horner 10 digit_value 0 ds)
read_digits [] h = refl
read_digits (d ∷ ds) h = rw (==_false d b'-' (λ e. omega arith))

-- What `convert` prints of a number of at most twenty digits reads back as that number.
pub read_decimal-convert : (i : ℤ) → magnitude i < 10 ^ max_digits → read_decimal (convert i) ≡ i
unfolding convert
read_decimal-convert (pos n) h =
    read_digits (reverse (convert_loop max_digits (pos n)))
      (reverse-digits (convert_loop max_digits (pos n)) (loop-digits max_digits (pos n)))
    ∙ ap pos
        (horner-reverse 10 digit_value (convert_loop max_digits (pos n)) ∙ loop_value 19 (pos n) h)
read_decimal-convert (negsuc n) h =
    ap read_decimal (reverse-append (convert_loop max_digits (negsuc n)) (b'-' ∷ []))
    ∙ ap negate (
        horner-reverse 10 digit_value (convert_loop max_digits (negsuc n))
        ∙ loop_value 19 (negsuc n) h)

length-reverse {ℓ} : {A : Type ℓ} (xs : List A) → length (reverse xs) ≡ length xs
length-reverse [] = refl
length-reverse (x ∷ xs) =
    omega
      (arith, ap length (reverse-cons x xs), length-append (reverse xs) (x ∷ []), length-reverse xs)

-- It is at most 21 bytes long.
pub length-convert : (i : ℤ) → length (convert i) ≤ max_digits + 1
unfolding convert
length-convert (pos n) =
    omega (arith, length-reverse (convert_loop max_digits (pos n)), length-loop max_digits (pos n))
length-convert (negsuc n) = omega (
  arith,
  length-reverse (convert_loop max_digits (negsuc n) ++ b'-' ∷ []),
  length-append (convert_loop max_digits (negsuc n)) (b'-' ∷ []),
  length-loop max_digits (negsuc n),
)

hex_loop_value :
    (f n : ℕ) → n < 16 ^ suc f → low_value 16 hex_value (convert_hex_loop (suc f) n) ≡ n
unfolding convert_hex_loop
hex_loop_value zero n h = elim (Bool-cases (n / 16 == 0)) [
  | inl last ↦ rw (last, hex_table (n % 16) (omega arith)) (omega (arith, (==_iff _ _).0 last))
  | inr more ↦ absurd (ground (arith, more, pow-suc 16 0))
]
hex_loop_value (suc f) n h = elim (Bool-cases (n / 16 == 0)) [
  | inl last ↦ rw (last, hex_table (n % 16) (omega arith)) (omega (arith, (==_iff _ _).0 last))
  | inr more ↦
      rw (more, hex_table (n % 16) (omega arith))
        (omega (arith, hex_loop_value f (n / 16) (omega (arith, pow-suc 16 (suc f)))))
]

-- What `convertHex` prints of a 64-bit pointer reads back as that number.
read_hex-convert_hex : (n : ℕ) → n < 16 ^ max_hex_digits → horner 16 hex_value 0 (convert_hex n) ≡ n
unfolding convert_hex
read_hex-convert_hex n h =
    horner-reverse 16 hex_value (convert_hex_loop max_hex_digits n) ∙ hex_loop_value 15 n h

length-hex_loop : (f n : ℕ) → length (convert_hex_loop f n) ≤ f
unfolding convert_hex_loop
length-hex_loop zero n = omega arith
length-hex_loop (suc f) n = elim (Bool-cases (n / 16 == 0)) [
  | inl last ↦ rw last (omega arith)
  | inr more ↦ rw more (omega (arith, length-hex_loop f (n / 16)))
]

-- It is at most sixteen bytes long.
pub length-convert_hex : (n : ℕ) → length (convert_hex n) ≤ max_hex_digits
unfolding convert_hex
length-convert_hex n =
    omega
      (arith, length-reverse (convert_hex_loop max_hex_digits n), length-hex_loop max_hex_digits n)
