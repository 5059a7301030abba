-- ===== src/Log/LogStream/Written.antt =====
-- The texts of the items, and what a LogStream writes of them.
use thread_library.Prelude.{
  ℕ, ◌+◌, ◌≤◌, ◌<◌, ◌≡◌, refl, sym, ap, ◌∙◌, ◌⊎◌, inl, inr, List, [], ◌∷◌, ◌++◌, none, some, true,
  false, arith, length, leb, if◌then◌else◌, append_assoc, append-nil, dec_lt, All, length-append,
  length-take_of_le,
}
use thread_library.Base.Convert.{convert}
use thread_library.Base.Convert.Digits.{length-convert, length-convert_hex}
use thread_library.Log.FixedBuffer.{
  FixedBuffer, left_size, append, text, IsValid, Holds, written-Holds, append_lem,
}
use thread_library.Log.LogStream.{
  max_numeric_size, Item, bool, integer, pointer, real, char, c_string, string, put_number,
  true_text, false_text, null_text, hex_text, put, put_all,
}

-- The text of an item.
unfoldable pub render : Item → List ℕ
render (bool v) = if v then true_text else false_text
render (integer i) = convert i
render (pointer p) = hex_text p
render (real ds) = ds
render (char c) = c ∷ []
render (c_string none) = null_text
render (c_string (some s)) = s
render (string s) = s

-- snprintf is given 32 bytes, and its text is shorter than that for the format "%.12g".
abbrev pub IsPrintable : Item → Type 0
IsPrintable (real ds) = length ds < max_numeric_size
IsPrintable _ = Unit

-- The item was written whole, or the buffer is as before and had no more room than a number or the text
-- asks for.
abbrev pub Wrote : FixedBuffer → List ℕ → FixedBuffer → Type 0
Wrote b ds c =
    Holds (length b.bytes) (text b ++ ds) c
    ⊎ ((c ≡ b) × ((left_size b ≤ length ds) ⊎ (left_size b < max_numeric_size)))

append-Wrote : (b : FixedBuffer) (ds : List ℕ) → IsValid b → Wrote b ds (append b ds)
append-Wrote b ds v = elim (dec_lt (length ds) (left_size b)) [
  | yes fits ↦ inl ((append_lem b ds v).0 fits)
  | no full ↦ inr ((append_lem b ds v).1 (omega arith), inl (omega arith))
]

-- A number of less than 32 bytes leaves room for its terminator.
put_number-Wrote :
    (b : FixedBuffer) (ds : List ℕ)
    → IsValid b
    → length ds < max_numeric_size
    → Wrote b ds (put_number b ds)
unfolding put_number
put_number-Wrote b ds v short = elim (dec_lt (left_size b) max_numeric_size) [
  | yes full ↦
      (let e : leb max_numeric_size (left_size b) ≡ false = ground arith in
        rw e (inr (refl, inr full)))
  | no room ↦
      (let e : leb max_numeric_size (left_size b) ≡ true = ground arith in
        rw e (inl (written-Holds b ds (0 ∷ []) v (omega arith))))
]

-- Each `operator<<` on a valid buffer keeps it valid, and either writes the whole text of the item with no byte
-- behind the end of the array, where the terminator of a number counts too, or leaves the buffer as it was for
-- want of room.
pub put-Wrote :
    (b : FixedBuffer) (i : Item) → IsValid b → IsPrintable i → Wrote b (render i) (put b i)
unfolding put render
put-Wrote b (bool v) h k = append-Wrote b _ h
put-Wrote b (integer i) h k = put_number-Wrote b (convert i) h (omega (arith, length-convert i))
put-Wrote b (pointer p) h k =
    put_number-Wrote b (hex_text p) h (omega (arith, length-convert_hex p))
put-Wrote b (real ds) h k = put_number-Wrote b ds h k
put-Wrote b (char c) h k = append-Wrote b _ h
put-Wrote b (c_string none) h k = append-Wrote b _ h
put-Wrote b (c_string (some s)) h k = append-Wrote b s h
put-Wrote b (string s) h k = append-Wrote b s h

-- The text of a row of items.
unfoldable pub render_all : List Item → List ℕ
render_all [] = []
render_all (i ∷ is) = render i ++ render_all is

-- Items whose texts leave 32 bytes of the buffer free are all written, in their order.
pub put_all-Holds :
    (b : FixedBuffer) (is : List Item)
    → IsValid b
    → All IsPrintable is
    → length (render_all is) + max_numeric_size ≤ left_size b
    → Holds (length b.bytes) (text b ++ render_all is) (put_all b is)
unfolding put_all render_all left_size
put_all-Holds b [] h k room = record { valid = h; held = sym (append-nil (text b)); sized = refl }
put_all-Holds b (i ∷ is) h k room = elim (put-Wrote b i h k.0) [
  | inl w ↦ join w (put_all-Holds (put b i) is w.valid k.1 (left w))
  | inr (_, no_room) ↦ absurd (omega (arith, size, no_room))
]
  where
    size : length (render i ++ render_all is) ≡ length (render i) + length (render_all is)
    size = length-append (render i) (render_all is)

    left :
        Holds (length b.bytes) (text b ++ render i) (put b i)
        → length (render_all is) + max_numeric_size ≤ left_size (put b i)
    left w = omega (
      arith,
      size,
      ap length w.held,
      length-append (text b) (render i),
      length-take_of_le b.current b.bytes h,
      length-take_of_le (put b i).current (put b i).bytes w.valid,
      w.sized,
    )

    join :
        Holds (length b.bytes) (text b ++ render i) (put b i)
        → Holds (length (put b i).bytes) (text (put b i) ++ render_all is) (put_all (put b i) is)
        → Holds (length b.bytes) (text b ++ (render i ++ render_all is)) (put_all (put b i) is)
    join w r = record {
      valid = r.valid;
      held =
          r.held
          ∙ ap (λ t. t ++ render_all is) w.held
          ∙ append_assoc (text b) (render i) (render_all is);
      sized = r.sized ∙ w.sized;
    }
