-- ===== src/Net/Buffer/Integers.antt =====
-- The integers that a Buffer appends, reads, peeks at and prepends, and `ReadFd`.
use thread_library.Prelude.{
  ℕ, Option, none, some, length, slice, write_at, take, drop, ltb, leb, if◌then◌else◌,
}
use thread_library.Prelude.Outcome.{Outcome, ok, fatal, ◌>>=◌}
use thread_library.Prelude.Words.{add64}
use thread_library.Net.Endian.{to_memory, of_memory, host_to_network, network_to_host}
use thread_library.Net.Buffer.{
  Buffer, readable_bytes, writable_bytes, retrieve_int64, retrieve_int32, retrieve_int16,
  retrieve_int8, append, prepend, ReadResult, got, failed,
}

-- The integers of w bytes: w is 8, 4 or 2.
unfoldable pub append_int : ℕ → Buffer → ℕ → Outcome Buffer
append_int w b num = append b (to_memory w (host_to_network w num))

unfoldable pub prepend_int : ℕ → Buffer → ℕ → Outcome Buffer
prepend_int w b num = prepend b (to_memory w (host_to_network w num))

unfoldable pub peek_int : ℕ → Buffer → Outcome ℕ
peek_int w b =
    if ltb (readable_bytes b) w
    then fatal
    else ok (network_to_host w (of_memory (slice b.bytes b.reader w)))

abbrev append_int64 : Buffer → ℕ → Outcome Buffer
append_int64 = append_int 8

abbrev append_int32 : Buffer → ℕ → Outcome Buffer
append_int32 = append_int 4

abbrev append_int16 : Buffer → ℕ → Outcome Buffer
append_int16 = append_int 2

abbrev prepend_int64 : Buffer → ℕ → Outcome Buffer
prepend_int64 = prepend_int 8

abbrev prepend_int32 : Buffer → ℕ → Outcome Buffer
prepend_int32 = prepend_int 4

abbrev prepend_int16 : Buffer → ℕ → Outcome Buffer
prepend_int16 = prepend_int 2

abbrev peek_int64 : Buffer → Outcome ℕ
peek_int64 = peek_int 8

abbrev peek_int32 : Buffer → Outcome ℕ
peek_int32 = peek_int 4

abbrev peek_int16 : Buffer → Outcome ℕ
peek_int16 = peek_int 2

-- One byte goes without a conversion.
unfoldable append_int8 : Buffer → ℕ → Outcome Buffer
append_int8 b num = append b (to_memory 1 num)

unfoldable prepend_int8 : Buffer → ℕ → Outcome Buffer
prepend_int8 b num = prepend b (to_memory 1 num)

unfoldable peek_int8 : Buffer → Outcome ℕ
peek_int8 b = if ltb (readable_bytes b) 1 then fatal else ok (of_memory (slice b.bytes b.reader 1))

unfoldable read_int64 : Buffer → Outcome (ℕ × Buffer)
read_int64 b = peek_int64 b >>= λ result. ok (result, retrieve_int64 b)

unfoldable read_int32 : Buffer → Outcome (ℕ × Buffer)
read_int32 b = peek_int32 b >>= λ result. ok (result, retrieve_int32 b)

unfoldable read_int16 : Buffer → Outcome (ℕ × Buffer)
read_int16 b = peek_int16 b >>= λ result. ok (result, retrieve_int16 b)

unfoldable read_int8 : Buffer → Outcome (ℕ × Buffer)
read_int8 b = peek_int8 b >>= λ result. ok (result, retrieve_int8 b)

-- What `readv` read goes to the writable bytes first, and what does not fit there to `extrabuf`. The
-- result is the count, or the error number that `savedErrno` receives.
unfoldable pub read_fd : Buffer → ReadResult → Outcome (Option ℕ × Buffer)
unfolding writable_bytes
read_fd b (failed e) = ok (none, b)
read_fd b (got ds) =
    let writable = writable_bytes b in
    let n = length ds in
    let filled : Buffer = record b { bytes = write_at b.bytes b.writer (take writable ds) } in
    if leb n writable
    then ok (some n, record filled { writer = add64 b.writer n })
    else (append (record filled { writer = length b.bytes }) (drop writable ds) >>= λ c.
        ok (some n, c))
