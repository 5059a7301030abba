-- ===== src/Base/ReadFile.antt =====
-- framework/base/include/FileUtils.hpp and framework/base/src/FileUtils.cpp: ReadFile. What open(2),
-- fstat(2) and read(2) answer is in the arguments; the loops run on fuel.
pub mod Loops
use thread_library.Prelude.{
  ℕ, zero, suc, ◌+◌, ◌-◌, ◌*◌, ◌^◌, ◌%◌, Bool, true, false, not, ◌&&◌, ◌||◌, leb, List, [], ◌∷◌,
  ◌++◌, Option, none, some, length, take, drop, ltb, ◌==◌, if◌then◌else◌,
}
use mathlib.Core.Option
use thread_library.Prelude.Words.{add64}
use thread_library.Prelude.Outcome.{Outcome, ok, thrown}

pub data Status : Type 0 where
  success malloc_memory_failed file_open_failed file_read_failed : Status
  file_get_status_failed file_format_invalid : Status

pub data Kind : Type 0 where
  regular directory special : Kind

-- What fstat(2) says of the file.
pub record Stat : Type 0 where
  pub kind : Kind
  pub size : ℕ
  pub modified : ℕ
  pub created : ℕ

-- A descriptor, or none where open(2) failed; 0 is a descriptor too.
pub record ReadFile : Type 0 where
  pub fd : Option ℕ
  pub stat : Option Stat

-- What read(2) answers at the n-th call: an error, or as much as is asked for and there, but no more than
-- some positive count.
pub data Answer : Type 0 where
  failed : Answer
  up_to : ℕ → Answer

abbrev pub min : ℕ → ℕ → ℕ
min a b = if ltb a b then a else b

-- The bytes of such an answer. `up_to n` allows n + 1 bytes.
abbrev pub taken : ℕ → ℕ → List ℕ → List ℕ
taken n to_read rest = take (min (suc n) to_read) rest

unfoldable get_file_size : ReadFile → Status × ℕ
get_file_size f = elim f.fd [
  | none ↦ (file_open_failed, 0)
  | some fd ↦
      if fd == 0
      then (file_open_failed, 0)
      else (elim f.stat [ none ↦ (file_get_status_failed, 0) | some s ↦ (success, s.size) ])
]

-- The loop of `readToString`; `none` means that the fuel ran out.
unfoldable pub string_loop : ℕ → (ℕ → Answer) → ℕ → ℕ → List ℕ → List ℕ → Option (Status × List ℕ)
string_loop zero answers k size rest context = none
string_loop (suc fuel) answers k size rest context =
    if ltb (length context) size
    then (elim (answers k) [
      | failed ↦ some (file_read_failed, context)
      | up_to n ↦
          (let got = taken n (size - length context) rest in
            let next =
              string_loop fuel answers (k + 1) size (drop (length got) rest) (context ++ got) in
            if ltb 0 (length got) then next else some (success, context))
    ])
    else some (success, context)

-- The guards of `readToString` before its loop; a failure of the size is one of the call.
unfoldable pub check_string : ReadFile → Status
unfolding get_file_size
check_string f = elim f.fd [
  | none ↦ file_open_failed
  | some fd ↦ elim f.stat [
    | none ↦ file_get_status_failed
    | some s ↦ elim s.kind [
      | regular ↦ (get_file_size f).0
      | directory ↦ file_format_invalid
      | special ↦ success
    ]
  ]
]

-- `reserve` of the lesser of the two sizes, as an int: a negative one is more than a string can have.
unfoldable pub reserve_throws : ℕ → ReadFile → Bool
reserve_throws read_size f = elim f.stat [
  | none ↦ false
  | some s ↦ elim s.kind [ regular ↦ leb (2 ^ 31) (min read_size s.size % 2 ^ 32) | other ↦ false ]
]

-- `*context` is empty before the call. `granted` says that there is memory for what the string reserves and
-- for a vector of `read_size` bytes, `null_if_empty` whether the data pointer of an empty vector is NULL.
unfoldable pub read_to_string :
    ℕ → (ℕ → Answer) → Bool → Bool → List ℕ → ReadFile → ℕ → Option (Outcome (Status × List ℕ))
unfolding check_string reserve_throws string_loop
read_to_string fuel answers granted null_if_empty content f read_size = elim (check_string f) [
  | success ↦
      if reserve_throws read_size f || not granted
      then some thrown
      else if read_size == 0 && null_if_empty
      then some (ok (malloc_memory_failed, []))
      else Option.map ok (string_loop fuel answers 0 read_size content [])
  | other ↦ some (ok (other, []))
]

-- The state of the loop of `readToByte`: the position in the buffer, the count, both of 64 bits, and the
-- bytes written so far, as the positions and what went there.
pub record Bytes : Type 0 where
  pub position : ℕ
  pub count : ℕ
  pub written : List (ℕ × List ℕ)

-- An error of read(2) is -1, which as a size_t is 2^64 - 1.
unfoldable pub byte_loop : ℕ → (ℕ → Answer) → ℕ → ℕ → List ℕ → Bytes → Option (Status × Bytes)
byte_loop zero answers k size rest s = none
byte_loop (suc fuel) answers k size rest s =
    if ltb s.count size
    then (elim (answers k) [
      | failed ↦ byte_loop fuel answers (k + 1) size rest (record s {
        position = add64 s.position (2 ^ 64 - 1);
        count = add64 s.count (2 ^ 64 - 1);
      })
      | up_to n ↦
          (let got = taken n (size - s.count) rest in
            let next = byte_loop fuel answers (k + 1) size (drop (length got) rest) (record {
              position = add64 s.position (length got);
              count = add64 s.count (length got);
              written = s.written ++ (s.position, got) ∷ [];
            }) in
            if ltb 0 (length got) then next else some (success, s))
    ])
    else some (success, s)

unfoldable pub check_byte : ReadFile → Status
check_byte f = elim f.fd [
  | none ↦ file_open_failed
  | some fd ↦ elim f.stat [
    | none ↦ file_get_status_failed
    | some s ↦ elim s.kind [ directory ↦ file_format_invalid | other ↦ success ]
  ]
]

-- Of a buffer that is not NULL.
unfoldable pub read_to_byte : ℕ → (ℕ → Answer) → List ℕ → ReadFile → ℕ → Option (Status × Bytes)
unfolding check_byte byte_loop
read_to_byte fuel answers content f size =
    let start : Bytes = record { position = 0; count = 0; written = [] } in
    elim (check_byte f) [
      | success ↦ byte_loop fuel answers 0 size content start
      | other ↦ some (other, start)
    ]
