-- ===== src/Net/Buffer.antt =====
-- framework/net/include/Buffer.hpp and framework/net/src/Buffer.cpp. A pointer into the vector is an
-- index; the bytes that a caller passes are a list, whose length is the `len` beside the pointer.
pub mod Integers
pub mod Contents
pub mod Fifo
pub mod Reads
pub mod Search
pub mod Refines
mod Tests
use thread_library.Prelude.{
  ℕ, zero, suc, ◌+◌, ◌-◌, ◌^◌, List, [], ◌∷◌, Bool, true, false, ◌&&◌, Option, none, some, length,
  slice, write_at, resize, replicate, ltb, leb, ◌==◌, if◌then◌else◌,
}
use thread_library.Prelude.Outcome.{Outcome, ok, fatal, thrown, fault, ◌>>=◌}
use thread_library.Prelude.Words.{add64, sub64}
use thread_library.Net.Endian.{to_memory, of_memory, host_to_network, network_to_host}

pub record Buffer : Type 0 where
  pub bytes : List ℕ
  pub reader : ℕ
  pub writer : ℕ

abbrev pub cheap_prepend : ℕ
cheap_prepend = 8

abbrev initial_size : ℕ
initial_size = 1024

-- `buffer_.max_size()`; `resize` beyond it throws.
abbrev pub max_size : ℕ
max_size = 2 ^ 63 - 1

-- The constructor takes a size and does not use it.
unfoldable pub create : ℕ → Buffer
create size = record {
  bytes = replicate (cheap_prepend + initial_size) 0;
  reader = cheap_prepend;
  writer = cheap_prepend;
}

unfoldable pub readable_bytes : Buffer → ℕ
readable_bytes b = sub64 b.writer b.reader

unfoldable pub writable_bytes : Buffer → ℕ
writable_bytes b = sub64 (length b.bytes) b.writer

unfoldable pub prependable_bytes : Buffer → ℕ
prependable_bytes b = b.reader

-- `memchr` over bytes that start at index `i`.
unfoldable pub find_byte : ℕ → ℕ → List ℕ → Option ℕ
find_byte c i [] = none
find_byte c i (x ∷ xs) = if x == c then some i else find_byte c (i + 1) xs

-- `std::search` for "\r\n" in bytes that start at index `i`; the index behind them if it is not there.
unfoldable pub search_crlf : ℕ → List ℕ → ℕ
search_crlf i [] = i
search_crlf i (x ∷ []) = i + 1
search_crlf i (x ∷ y ∷ xs) =
    let rest = search_crlf (i + 1) (y ∷ xs) in if x == b'\r' && y == b'\n' then i else rest

unfoldable pub find_eol : Buffer → Option ℕ
unfolding find_byte readable_bytes
find_eol b = find_byte b'\n' b.reader (slice b.bytes b.reader (readable_bytes b))

-- `FindEOL(start)`. The pointer difference is not negative, since `start` is not behind `BeginWrite()`.
unfoldable find_eol_from : Buffer → ℕ → Option ℕ
unfolding find_byte
find_eol_from b start =
    let from = if ltb start b.reader then b.reader else start in
    if ltb b.writer start then none else find_byte b'\n' from (slice b.bytes from (b.writer - from))

unfoldable pub find_crlf : Buffer → Option ℕ
unfolding search_crlf
find_crlf b =
    let crlf = search_crlf b.reader (slice b.bytes b.reader (b.writer - b.reader)) in
    if crlf == b.writer then none else some crlf

unfoldable find_crlf_from : Buffer → ℕ → Option ℕ
unfolding search_crlf
find_crlf_from b start =
    let from = if ltb start b.reader then b.reader else start in
    if ltb b.writer start
    then none
    else (let crlf = search_crlf from (slice b.bytes from (b.writer - from)) in
        if crlf == b.writer then none else some crlf)

unfoldable pub retrieve_all : Buffer → Buffer
retrieve_all b = record b { reader = cheap_prepend; writer = cheap_prepend }

unfoldable pub retrieve : Buffer → ℕ → Buffer
unfolding readable_bytes retrieve_all
retrieve b len =
    if ltb len (readable_bytes b) then record b { reader = add64 b.reader len } else retrieve_all b

-- The second call runs also after `RetrieveAll`, on the new `Peek()`.
unfoldable pub retrieve_until : Buffer → ℕ → Buffer
unfolding retrieve
retrieve_until b end =
    if leb end b.reader
    then b
    else (let c = if leb b.writer end then retrieve_all b else b in retrieve c (sub64 end c.reader))

unfoldable pub retrieve_int64 : Buffer → Buffer
retrieve_int64 b = retrieve b 8

unfoldable pub retrieve_int32 : Buffer → Buffer
retrieve_int32 b = retrieve b 4

unfoldable pub retrieve_int16 : Buffer → Buffer
retrieve_int16 b = retrieve b 2

unfoldable pub retrieve_int8 : Buffer → Buffer
retrieve_int8 b = retrieve b 1

unfoldable pub retrieve_as_string : Buffer → ℕ → Buffer × List ℕ
unfolding retrieve
retrieve_as_string b len =
    let read_len = if leb (readable_bytes b) len then readable_bytes b else len in
    (retrieve b len, slice b.bytes b.reader read_len)

unfoldable pub retrieve_all_as_string : Buffer → Buffer × List ℕ
unfolding retrieve_as_string
retrieve_all_as_string b = retrieve_as_string b (readable_bytes b)

-- The two branches of `MakeSpace`: a larger vector, or the readable bytes moved to the front.
unfoldable pub grow : Buffer → ℕ → Outcome Buffer
grow b len =
    let size = add64 b.writer len in
    if ltb max_size size then thrown else ok (record b { bytes = resize b.bytes size 0 })

unfoldable pub compact : Buffer → Outcome Buffer
unfolding readable_bytes
compact b =
    let readable = readable_bytes b in
    let moved : Buffer = record {
      bytes = write_at b.bytes cheap_prepend (slice b.bytes b.reader readable);
      reader = cheap_prepend;
      writer = add64 cheap_prepend readable;
    } in
    if ltb cheap_prepend b.reader
    then (if readable == readable_bytes moved then ok moved else fault)
    else fault

unfoldable pub make_space : Buffer → ℕ → Outcome Buffer
unfolding writable_bytes prependable_bytes grow compact
make_space b len =
    if ltb (add64 (writable_bytes b) (prependable_bytes b)) (add64 len cheap_prepend)
    then grow b len
    else compact b

unfoldable pub ensure_writable_bytes : Buffer → ℕ → Outcome Buffer
unfolding writable_bytes make_space
ensure_writable_bytes b len = if ltb (writable_bytes b) len then make_space b len else ok b

unfoldable pub has_written : Buffer → ℕ → Outcome Buffer
unfolding writable_bytes
has_written b len =
    if ltb (writable_bytes b) len then fatal else ok (record b { writer = add64 b.writer len })

unfoldable pub unwrite : Buffer → ℕ → Outcome Buffer
unfolding readable_bytes
unwrite b len =
    if ltb (readable_bytes b) len then fatal else ok (record b { writer = sub64 b.writer len })

unfoldable pub append : Buffer → List ℕ → Outcome Buffer
unfolding ensure_writable_bytes has_written
append b ds = do
  c ← ensure_writable_bytes b (length ds)
  has_written (record c { bytes = write_at c.bytes c.writer ds }) (length ds)

unfoldable pub prepend : Buffer → List ℕ → Outcome Buffer
unfolding prependable_bytes
prepend b ds =
    let start = sub64 b.reader (length ds) in
    if ltb (prependable_bytes b) (length ds)
    then fatal
    else ok (record b { reader = start; bytes = write_at b.bytes start ds })

-- `ssize_t ReadFd(int, int*)`: what `readv` filled in, or its error.
pub data ReadResult : Type 0 where
  got : List ℕ → ReadResult
  failed : ℕ → ReadResult

abbrev pub extra_size : ℕ
extra_size = 65536

-- The room in the segments that `readv` is given: the second one only below `sizeof extrabuf`.
unfoldable pub read_room : Buffer → ℕ
unfolding writable_bytes
read_room b =
    if ltb (writable_bytes b) extra_size then writable_bytes b + extra_size else writable_bytes b
