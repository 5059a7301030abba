-- ===== src/Log/LogStream.antt =====
-- framework/log/include/LogStream.hpp and framework/log/src/LogStream.cpp. What is put into a stream is
-- a value of `Item`; the text that snprintf makes of a floating-point number is given with the item.
pub mod Written
use thread_library.Prelude.{
  ℕ, ◌+◌, ◌-◌, List, [], ◌∷◌, ◌++◌, Option, none, some, Bool, true, false, length, leb,
  if◌then◌else◌,
}
use thread_library.Prelude.Int.{ℤ, pos, negsuc}
use thread_library.Base.Convert.{convert, convert_hex}
use thread_library.Log.FixedBuffer.{FixedBuffer, left_size, write_current, add_current, append}

abbrev pub max_numeric_size : ℕ
max_numeric_size = 32

abbrev pub small_buffer : ℕ
small_buffer = 4000

-- The overloads of `operator<<`; those of all integer types end in `formatInteger`.
pub data Item : Type 0 where
  bool : Bool → Item
  integer : ℤ → Item
  pointer : ℕ → Item
  real : List ℕ → Item
  char : ℕ → Item
  c_string : Option (List ℕ) → Item
  string : List ℕ → Item

-- Text and terminator go to the current position, and the position moves behind the text.
unfoldable pub put_number : FixedBuffer → List ℕ → FixedBuffer
put_number b ds =
    if leb max_numeric_size (left_size b)
    then add_current (write_current b (ds ++ 0 ∷ [])) (length ds)
    else b

abbrev pub true_text : List ℕ
true_text = b't' ∷ b'r' ∷ b'u' ∷ b'e' ∷ b' ' ∷ []

abbrev pub false_text : List ℕ
false_text = b'f' ∷ b'a' ∷ b'l' ∷ b's' ∷ b'e' ∷ []

abbrev pub null_text : List ℕ
null_text = b'(' ∷ b'n' ∷ b'u' ∷ b'l' ∷ b'l' ∷ b')' ∷ []

abbrev pub hex_text : ℕ → List ℕ
hex_text p = b'0' ∷ b'x' ∷ convert_hex p

unfoldable pub put : FixedBuffer → Item → FixedBuffer
unfolding put_number
put b (bool v) = append b (if v then true_text else false_text)
put b (integer i) = put_number b (convert i)
put b (pointer p) = put_number b (hex_text p)
put b (real ds) = put_number b ds
put b (char c) = append b (c ∷ [])
put b (c_string none) = append b null_text
put b (c_string (some s)) = append b s
put b (string s) = append b s

unfoldable pub put_all : FixedBuffer → List Item → FixedBuffer
unfolding put
put_all b [] = b
put_all b (i ∷ is) = put_all (put b i) is
