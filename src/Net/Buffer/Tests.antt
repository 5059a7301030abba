-- ===== src/Net/Buffer/Tests.antt =====
-- The theorems about Buffer.cpp at small buffers, and runs of its functions.
use thread_library.Prelude.{
  ℕ, ◌-◌, ◌≤◌, ◌≡◌, refl, List, [], ◌∷◌, ◌+◌, ◌++◌, some, arith, length, drop,
}
use thread_library.Prelude.Outcome.{ok, Returns}
use thread_library.Net.Buffer.{
  Buffer, max_size, extra_size, readable_bytes, writable_bytes, prependable_bytes, retrieve,
  retrieve_until, retrieve_as_string, retrieve_all_as_string, ensure_writable_bytes, unwrite,
  append, prepend, find_eol, find_crlf, find_byte, search_crlf, read_room, got,
}
use thread_library.Net.Buffer
use thread_library.Net.Buffer.Integers.{append_int, peek_int, read_fd}
use thread_library.Net.Buffer.Contents.{
  IsValid, contents, Holds, ensure_writable_bytes-Holds, create-Holds,
}
use thread_library.Net.Buffer.Fifo.{retrieve-Holds}
use thread_library.Net.Buffer.Reads.{peek_int-append_int, read_fd-Holds}
use thread_library.Net.Buffer.Search.{Found, find_crlf_lem}
use thread_library.Net.Buffer.Refines.{
  Call, appends, takes, takes_all, unwrites, calls, replay, Agrees, calls-Agrees,
}

-- "ab\r\nc" behind the header, and three bytes of room.
abbrev sample : Buffer
sample = record {
  bytes = 0 ∷ 0 ∷ 0 ∷ 0 ∷ 0 ∷ 0 ∷ 0 ∷ 0 ∷ 97 ∷ 98 ∷ 13 ∷ 10 ∷ 99 ∷ 0 ∷ 0 ∷ 0 ∷ [];
  reader = 8;
  writer = 13;
}

abbrev empty : Buffer
empty = record sample { writer = 8 }

sample-IsValid : IsValid sample
sample-IsValid = omega arith

empty-IsValid : IsValid empty
empty-IsValid = omega arith

ensure_writable_bytes_example :
    Returns
      (ensure_writable_bytes sample 20)
      (λ c. Holds (contents sample) c × (20 ≤ writable_bytes c))
ensure_writable_bytes_example = ensure_writable_bytes-Holds sample 20 sample-IsValid (omega arith)

retrieve_example : Holds (drop 2 (contents sample)) (retrieve sample 2)
retrieve_example = retrieve-Holds sample 2 sample-IsValid

peek_int-append_int_example :
    Returns (append_int 8 empty 65536) (λ c. (peek_int 8 c ≡ ok 65536) × Holds [] (retrieve c 8))
peek_int-append_int_example =
    peek_int-append_int 8 65536 empty empty-IsValid refl (omega arith) (omega arith)

sample_room : 5 ≤ read_room sample
unfolding read_room
sample_room = omega arith

-- Five bytes, of which two run into `extrabuf`.
read_fd_example :
    Returns
      (read_fd sample (got (1 ∷ 2 ∷ 3 ∷ 4 ∷ 5 ∷ [])))
      (λ r. (r.0 ≡ some 5) × Holds (contents sample ++ (1 ∷ 2 ∷ 3 ∷ 4 ∷ 5 ∷ [])) r.1)
    × (5 - writable_bytes sample ≤ extra_size)
read_fd_example =
    read_fd-Holds sample (1 ∷ 2 ∷ 3 ∷ 4 ∷ 5 ∷ []) sample-IsValid (omega arith) sample_room

find_crlf_example :
    ((i : ℕ) → find_crlf sample ≡ some i → Found sample.reader (contents sample) i)
    × ((line rest : List ℕ)
        → contents sample ≡ line ++ b'\r' ∷ b'\n' ∷ rest
        → (i : ℕ) × (find_crlf sample ≡ some i) × (i ≤ sample.reader + length line))
find_crlf_example = find_crlf_lem sample sample-IsValid

-- The first end of line of the sample.
found : (find_eol sample ≡ some 11) × (find_crlf sample ≡ some 10)
unfolding find_eol find_crlf
found = (refl, refl)

-- The size that is given to the constructor is not used.
create_ignores_size : Buffer.create 16 ≡ Buffer.create 4096
unfolding Buffer.create
create_ignores_size = refl

abbrev script : List Call
script =
    appends (1 ∷ 2 ∷ 3 ∷ []) ∷ takes 1 ∷ unwrites 1 ∷ appends (4 ∷ []) ∷ takes_all ∷ unwrites 1 ∷ []

-- The last call aborts, since nothing is held.
calls_example : Agrees (8 + 4) (calls script (Buffer.create 0)) (replay script [])
unfolding Buffer.create
calls_example =
    calls-Agrees script (Buffer.create 0) 8 (create-Holds 0).valid (omega arith) (omega arith)
      (omega arith)
