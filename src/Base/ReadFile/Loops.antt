-- ===== src/Base/ReadFile/Loops.antt =====
-- What the loops of ReadFile read, however the answers of read(2) cut the file.
use thread_library.Prelude.{
  ℕ, zero, suc, ◌+◌, ◌-◌, ◌^◌, ◌≤◌, ◌<◌, ◌≡◌, refl, sym, ap, subst, ◌∙◌, true, false, List, [], ◌∷◌,
  ◌++◌, Option, none, some, length, take, drop, ltb, Bool-cases, inl, inr, ltb→lt, lt→ltb, le→ltb,
  not-ltb, arith, Bool, not, ◌||◌, ◌&&◌, ◌==◌, if◌then◌else◌, append_assoc, append-nil,
  length-append,
}
use mathlib.Core.Option
use thread_library.Prelude.Words.{add64}
use thread_library.Prelude.Outcome.{Outcome, ok, thrown}
use thread_library.Base.ReadFile.{
  Status, success, malloc_memory_failed, file_open_failed, file_read_failed, file_get_status_failed,
  file_format_invalid, ReadFile, Answer, failed, up_to, min, string_loop, check_string,
  read_to_string, reserve_throws, Stat, Kind, Kind, regular, directory, special, Bytes, byte_loop,
  check_byte, read_to_byte,
}

-- No call of read(2) fails.
abbrev NoErrors : (ℕ → Answer) → Type 0
NoErrors answers = (k : ℕ) → (n : ℕ) × (answers k ≡ up_to n)

take-nil : (m : ℕ) → take {A = ℕ} m [] ≡ []
take-nil zero = refl
take-nil (suc m) = refl

take-take-drop :
    (g m : ℕ) (xs : List ℕ)
    → g ≤ m
    → take g xs ++ take (m - length (take g xs)) (drop (length (take g xs)) xs) ≡ take m xs
take-take-drop zero m xs h = let e : m - 0 ≡ m = omega arith in rw e refl
take-take-drop (suc g) m [] h = take-nil (m - 0) ∙ sym (take-nil m)
take-take-drop (suc g) zero (x ∷ xs) h = absurd (omega (arith, h))
take-take-drop (suc g) (suc m) (x ∷ xs) h =
    let e : suc m - suc (length (take g xs)) ≡ m - length (take g xs) = omega arith in
    rw e (ap (λ t. x ∷ t) (take-take-drop g m xs (omega (arith, h))))

take_none : (g m : ℕ) (xs : List ℕ) → 0 < g → length (take g xs) ≡ 0 → take m xs ≡ []
take_none zero m xs p h = absurd (omega (arith, p))
take_none (suc g) m [] p h = take-nil m
take_none (suc g) m (x ∷ xs) p h = absurd (omega (arith, h))

min_bounds : (a b : ℕ) → 0 < a → 0 < b → (0 < min a b) × (min a b ≤ b)
min_bounds a b p q = ground arith

-- One round that reads something, before the others.
more_read :
    (g size : ℕ) (rest context : List ℕ)
    → g ≤ size - length context
    → let got = take g rest in
      (context ++ got) ++ take (size - length (context ++ got)) (drop (length got) rest)
      ≡ context ++ take (size - length context) rest
more_read g size rest context h =
    let got = take g rest in
    let e : size - length (context ++ got) ≡ size - length context - length got =
      omega (arith, length-append context got) in
    append_assoc context got (take (size - length (context ++ got)) (drop (length got) rest))
    ∙ ap (λ t. context ++ t)
        (ap (λ m. got ++ take m (drop (length got) rest)) e
          ∙ take-take-drop g (size - length context) rest h)

string_loop_lem :
    (fuel : ℕ) (answers : ℕ → Answer) (k size : ℕ) (rest context : List ℕ)
    → NoErrors answers
    → size - length context < fuel
    → string_loop fuel answers k size rest context
      ≡ some (success, context ++ take (size - length context) rest)
unfolding string_loop
string_loop_lem zero answers k size rest context e f = absurd (omega (arith, f))
string_loop_lem (suc fuel) answers k size rest context e f =
    elim (Bool-cases (ltb (length context) size)) [
      | inr done ↦
          let z : size - length context ≡ 0 = omega (arith, not-ltb _ _ done) in
          rw (done, z) (ap (λ t. some (success, t)) (sym (append-nil context)))
      | inl more ↦ rw more (
          rw ((e k).1) (elim (Bool-cases (ltb 0 (length got))) [
            | inl some_read ↦ rw some_read (
                string_loop_lem fuel answers (k + 1) size (drop (length got) rest) (context ++ got)
                  e
                  (omega
                    (arith, length-append context got, ltb→lt _ _ some_read, f, ltb→lt _ _ more))
                ∙ ap (λ t. some (success, t)) (more_read g size rest context (bounds more).1))
            | inr at_end ↦ rw at_end (
                ap (λ t. some (success, t))
                  (sym (
                    ap (λ t. context ++ t)
                      (take_none g (size - length context) rest (bounds more).0
                        (omega (arith, not-ltb _ _ at_end)))
                    ∙ append-nil context)))
          ]))
    ]
  where
    g : ℕ
    g = min (suc (e k).0) (size - length context)

    got : List ℕ
    got = take g rest

    bounds : ltb (length context) size ≡ true → (0 < g) × (g ≤ size - length context)
    bounds more =
        min_bounds (suc (e k).0) (size - length context) (omega arith)
          (omega (arith, ltb→lt _ _ more))

reserve_in_int :
    (read_size : ℕ) (f : ReadFile) → read_size < 2 ^ 31 → reserve_throws read_size f ≡ false
unfolding reserve_throws
reserve_in_int read_size f h = by_stat f.stat
  where
    by_stat : (o : Option Stat) → reserve_throws read_size (record f { stat = o }) ≡ false
    by_stat none = refl
    by_stat (some s) = by_kind s.kind
      where
        by_kind :
            (k : Kind)
            → reserve_throws read_size (record f { stat = some (record s { kind = k }) }) ≡ false
        by_kind regular =
            let le : min read_size s.size ≤ read_size = ground arith in ground (arith, h, le)
        by_kind directory = refl
        by_kind special = refl

-- `readToString` of 1 to 2^31 - 1 bytes, with the memory granted and without errors of read(2), ends without
-- a throw, whatever counts the answers have: a file that passes the checks gives its first `read_size` bytes,
-- and one that does not gives the status of the check.
pub read_to_string_lem :
    (fuel : ℕ) (answers : ℕ → Answer) (null_if_empty : Bool) (content : List ℕ) (f : ReadFile)
    (read_size : ℕ)
    → NoErrors answers
    → 0 < read_size
    → read_size < 2 ^ 31
    → read_size < fuel
    → read_to_string fuel answers true null_if_empty content f read_size
      ≡ some (
          ok (elim (check_string f) [
            | success ↦ (success, take read_size content)
            | other ↦ (other, [])
          ]))
unfolding read_to_string
read_to_string_lem fuel answers null_if_empty content f read_size e some_read small h =
    by_status (check_string f)
  where
    loop_part : Option (Outcome (Status × List ℕ))
    loop_part =
        if reserve_throws read_size f || not true
        then some thrown
        else if read_size == 0 && null_if_empty
        then some (ok (malloc_memory_failed, []))
        else Option.map ok (string_loop fuel answers 0 read_size content [])

    by_status :
        (st : Status)
        → (elim st [ success ↦ loop_part | other ↦ some (ok (other, [])) ])
          ≡ some
              (ok (elim st [ success ↦ (success, take read_size content) | other ↦ (other, []) ]))
    by_status success =
        let z : read_size - 0 ≡ read_size = omega arith in
        let full : (read_size == 0) ≡ false = ground (arith, some_read) in
        rw (reserve_in_int read_size f small, full)
          (ap (Option.map ok) (
            string_loop_lem fuel answers 0 read_size content [] e (omega (arith, h))
            ∙ ap (λ m. some (success, take m content)) z))
    by_status malloc_memory_failed = refl
    by_status file_open_failed = refl
    by_status file_read_failed = refl
    by_status file_get_status_failed = refl
    by_status file_format_invalid = refl

-- When the first read(2) fails, `readToByte` reports success all the same, with nothing in the buffer.
read_to_byte_hides_error :
    (fuel : ℕ) (answers : ℕ → Answer) (content : List ℕ) (f : ReadFile) (size : ℕ)
    → check_byte f ≡ success
    → answers 0 ≡ failed
    → 0 < size
    → size < 2 ^ 64
    → read_to_byte (suc (suc fuel)) answers content f size
      ≡ some (success, record { position = 2 ^ 64 - 1; count = 2 ^ 64 - 1; written = [] })
unfolding read_to_byte byte_loop
read_to_byte_hides_error fuel answers content f size c e pos_size small =
    let late : ltb (2 ^ 64 - 1) size ≡ false = le→ltb _ _ (omega (arith, small)) in
    rw (c, read_to_byte) (rw (lt→ltb 0 size pos_size) (rw e (rw late refl)))

abbrev pub joined : List (ℕ × List ℕ) → List ℕ
joined [] = []
joined ((_, ds) ∷ pieces) = ds ++ joined pieces

-- The pieces stand one behind the other, from `p` on.
abbrev InPlace : ℕ → List (ℕ × List ℕ) → Type 0
InPlace p [] = Unit
InPlace p ((q, ds) ∷ pieces) = (q ≡ p) × InPlace (p + length ds) pieces

joined-snoc :
    (pieces : List (ℕ × List ℕ)) (q : ℕ) (ds : List ℕ)
    → joined (pieces ++ (q, ds) ∷ []) ≡ joined pieces ++ ds
joined-snoc [] q ds = append-nil ds
joined-snoc ((p, es) ∷ pieces) q ds =
    ap (λ t. es ++ t) (joined-snoc pieces q ds) ∙ sym (append_assoc es (joined pieces) ds)

InPlace-snoc :
    (p : ℕ) (pieces : List (ℕ × List ℕ)) (q : ℕ) (ds : List ℕ)
    → InPlace p pieces
    → q ≡ p + length (joined pieces)
    → InPlace p (pieces ++ (q, ds) ∷ [])
InPlace-snoc p [] q ds h e = (omega (arith, e), tt)
InPlace-snoc p ((r, es) ∷ pieces) q ds h e = (
  h.0,
  InPlace-snoc (p + length es) pieces q ds h.1 (omega (arith, e, length-append es (joined pieces))),
)

-- The buffer holds these bytes from its start on, and the loop stands behind them.
pub record Filled (xs : List ℕ) (s : Bytes) : Type 0 where
  pub bytes : joined s.written ≡ xs
  pub in_place : InPlace 0 s.written
  pub at : s.position ≡ length xs
  pub counted : s.count ≡ length xs

abbrev pub Fills : List ℕ → Option (Status × Bytes) → Type 0
Fills xs none = ⊥
Fills xs (some (st, s)) = (st ≡ success) × Filled xs s

length-take-le : (g : ℕ) (xs : List ℕ) → length (take g xs) ≤ g
length-take-le zero xs = omega arith
length-take-le (suc g) [] = omega arith
length-take-le (suc g) (x ∷ xs) = omega (arith, length-take-le g xs)

-- The state after one answer.
advance : Bytes → List ℕ → Bytes
advance s got = record {
  position = add64 s.position (length got);
  count = add64 s.count (length got);
  written = s.written ++ (s.position, got) ∷ [];
}

advance-Filled :
    (s : Bytes) (xs got : List ℕ)
    → Filled xs s
    → length xs + length got < 2 ^ 64
    → Filled (xs ++ got) (advance s got)
unfolding advance
advance-Filled s xs got h small = record {
  bytes = joined-snoc s.written s.position got ∙ ap (λ t. t ++ got) h.bytes;
  in_place =
      InPlace-snoc 0 s.written s.position got h.in_place (omega (arith, h.at, ap length h.bytes));
  at = omega (arith, length-append xs got, h.at, small);
  counted = omega (arith, length-append xs got, h.counted, small);
}

byte_loop-Fills :
    (fuel : ℕ) (answers : ℕ → Answer) (k size : ℕ) (rest xs : List ℕ) (s : Bytes)
    → NoErrors answers
    → Filled xs s
    → size < 2 ^ 64
    → length xs ≤ size
    → size - length xs < fuel
    → Fills (xs ++ take (size - length xs) rest) (byte_loop fuel answers k size rest s)
unfolding byte_loop advance
byte_loop-Fills zero answers k size rest xs s e h small short f = absurd (omega (arith, f))
byte_loop-Fills (suc fuel) answers k size rest xs s e h small short f =
    elim (Bool-cases (ltb s.count size)) [
      | inr done ↦
          let z : size - length xs ≡ 0 = omega (arith, not-ltb _ _ done, h.counted) in
          rw done (
            refl,
            subst (λ ys. Filled ys s) (sym (ap (λ m. xs ++ take m rest) z ∙ append-nil xs)) h,
          )
      | inl more ↦ rw more (
          rw ((e k).1) (elim (Bool-cases (ltb 0 (length got))) [
            | inl some_read ↦ rw some_read (
                subst
                  (λ ys.
                    Fills ys (
                      byte_loop fuel answers (k + 1) size (drop (length got) rest) (advance s got)))
                  (more_read g size rest xs (omega (arith, (bounds more).1, h.counted)))
                  (byte_loop-Fills fuel answers (k + 1) size (drop (length got) rest) (xs ++ got)
                    (advance s got) e (advance-Filled s xs got h (omega (arith, fits more, small)))
                    small (omega (arith, fits more, length-append xs got))
                    (omega (arith, fits more, length-append xs got, f, ltb→lt _ _ some_read))))
            | inr at_end ↦ rw at_end (
              refl,
              subst (λ ys. Filled ys s)
                  (sym (
                    ap (λ t. xs ++ t)
                      (take_none g (size - length xs) rest (bounds more).0
                        (omega (arith, not-ltb _ _ at_end)))
                    ∙ append-nil xs))
                  h,
            )
          ]))
    ]
  where
    g : ℕ
    g = min (suc (e k).0) (size - s.count)

    got : List ℕ
    got = take g rest

    bounds : ltb s.count size ≡ true → (0 < g) × (g ≤ size - s.count)
    bounds more =
        min_bounds (suc (e k).0) (size - s.count) (omega arith) (omega (arith, ltb→lt _ _ more))

    fits : ltb s.count size ≡ true → length xs + length got ≤ size
    fits more = omega (arith, length-take-le g rest, (bounds more).1, h.counted, ltb→lt _ _ more)

-- `readToByte` of a file that passes its checks, into a buffer that is not NULL, with a size below 2^64 and
-- without errors of read(2), ends with success, whatever counts the answers have, and has put the first `size`
-- bytes of the file into the buffer, one piece behind the other from its start.
pub read_to_byte-Fills :
    (fuel : ℕ) (answers : ℕ → Answer) (content : List ℕ) (f : ReadFile) (size : ℕ)
    → check_byte f ≡ success
    → NoErrors answers
    → size < 2 ^ 64
    → size < fuel
    → Fills (take size content) (read_to_byte fuel answers content f size)
unfolding read_to_byte
read_to_byte-Fills fuel answers content f size c e small h =
    let z : size - 0 ≡ size = omega arith in
    rw (c, read_to_byte)
      (subst (λ m. Fills (take m content) (byte_loop fuel answers 0 size content start)) z
        (byte_loop-Fills fuel answers 0 size content [] start e started small (omega arith)
          (omega (arith, h))))
  where
    start : Bytes
    start = record { position = 0; count = 0; written = [] }

    started : Filled [] start
    started = record { bytes = refl; in_place = tt; at = refl; counted = refl }
