-- ===== src/Base/Convert.antt =====
-- framework/base/src/utils.cpp: `convert` and `convertHex`. The characters are the bytes that a call
-- leaves in `buf`, without the terminator. `negsuc n` is -(n + 1).
pub mod Digits
use thread_library.Prelude.{
  ℕ, zero, suc, ◌+◌, ◌-◌, ◌/◌, ◌%◌, List, [], ◌∷◌, ◌++◌, reverse, get_elem?, Option, none, some,
  ◌==◌, if◌then◌else◌, Bool, true, false,
}
use thread_library.Prelude.Int.{ℤ, pos, negsuc}

-- -n
abbrev pub negate : ℕ → ℤ
negate zero = pos 0
negate (suc n) = negsuc n

-- `i / 10` and `i % 10`, which round towards zero.
abbrev pub quotient : ℤ → ℤ
quotient (pos n) = pos (n / 10)
quotient (negsuc n) = negate (suc n / 10)

abbrev pub remainder : ℤ → ℤ
remainder (pos n) = pos (n % 10)
remainder (negsuc n) = negate (suc n % 10)

abbrev pub is_zero : ℤ → Bool
is_zero (pos n) = n == 0
is_zero (negsuc n) = false

-- "9876543210123456789"; `zero` points at its tenth character.
abbrev pub digits : List ℕ
digits =
    57 ∷ 56 ∷ 55 ∷ 54 ∷ 53 ∷ 52 ∷ 51 ∷ 50 ∷ 49 ∷ 48 ∷ 49 ∷ 50 ∷ 51 ∷ 52 ∷ 53 ∷ 54 ∷ 55 ∷ 56 ∷ 57
    ∷ []

-- "0123456789ABCDEF"
abbrev pub digits_hex : List ℕ
digits_hex = 48 ∷ 49 ∷ 50 ∷ 51 ∷ 52 ∷ 53 ∷ 54 ∷ 55 ∷ 56 ∷ 57 ∷ 65 ∷ 66 ∷ 67 ∷ 68 ∷ 69 ∷ 70 ∷ []

abbrev pub char_at : List ℕ → ℕ → ℕ
char_at table i = elim (get_elem? table i) [ none ↦ 0 | some c ↦ c ]

-- `zero[lsd]`
abbrev pub zero_at : ℤ → ℕ
zero_at (pos d) = char_at digits (9 + d)
zero_at (negsuc d) = char_at digits (9 - (d + 1))

-- The loop of `convert`, lowest digit first, on fuel.
unfoldable pub convert_loop : ℕ → ℤ → List ℕ
convert_loop zero i = []
convert_loop (suc fuel) i =
    let rest = convert_loop fuel (quotient i) in
    zero_at (remainder i) ∷ (if is_zero (quotient i) then [] else rest)

-- A 64-bit integer has at most twenty digits.
abbrev pub max_digits : ℕ
max_digits = 20

unfoldable pub convert : ℤ → List ℕ
unfolding convert_loop
convert (pos n) = reverse (convert_loop max_digits (pos n))
convert (negsuc n) = reverse (convert_loop max_digits (negsuc n) ++ b'-' ∷ [])

unfoldable pub convert_hex_loop : ℕ → ℕ → List ℕ
convert_hex_loop zero i = []
convert_hex_loop (suc fuel) i =
    let rest = convert_hex_loop fuel (i / 16) in
    char_at digits_hex (i % 16) ∷ (if i / 16 == 0 then [] else rest)

-- A pointer of 64 bits has at most sixteen hexadecimal digits.
abbrev pub max_hex_digits : ℕ
max_hex_digits = 16

unfoldable pub convert_hex : ℕ → List ℕ
unfolding convert_hex_loop
convert_hex value = reverse (convert_hex_loop max_hex_digits value)
