-- ===== src/Log/AsyncLogging.antt =====
-- framework/log/include/AsyncLogging.hpp and framework/log/src/AsyncLogging.cpp. The callers of `Append`
-- and the writer thread share `Front` under the mutex; `Back` is the writer's own. A unique_ptr is an
-- option, and each critical section is one step.
pub mod Stream
pub mod Writer
pub mod Runs
use thread_library.Prelude.{
  ℕ, zero, suc, ◌+◌, ◌*◌, List, [], ◌∷◌, ◌++◌, Option, none, some, Bool, true, false, length, take,
  ltb, leb, ◌==◌, if◌then◌else◌, reverse,
}
use thread_library.Prelude.Outcome.{Outcome, ok, fault, ◌>>=◌}
use thread_library.Log.FixedBuffer.{FixedBuffer, left_size, append, reset, text}
use thread_library.Log.FixedBuffer

abbrev pub large_buffer : ℕ
large_buffer = 4000 * 1000

-- `new Buffer`
unfoldable pub new_buffer : FixedBuffer
new_buffer = FixedBuffer.create large_buffer

pub record Front : Type 0 where
  pub current : Option FixedBuffer
  pub next : Option FixedBuffer
  pub buffers : List FixedBuffer

-- `output` holds what was given to `LogFile::append`, in order.
pub record Back : Type 0 where
  pub new1 : Option FixedBuffer
  pub new2 : Option FixedBuffer
  pub to_write : List FixedBuffer
  pub output : List (List ℕ)

unfoldable pub create : Front
unfolding new_buffer
create = record { current = some new_buffer; next = some new_buffer; buffers = [] }

unfoldable pub start_thread : Back
unfolding new_buffer
start_thread = record { new1 = some new_buffer; new2 = some new_buffer; to_write = []; output = [] }

-- `nextBuffer_` if there is one, otherwise a new buffer.
abbrev pub take_next : Option FixedBuffer → FixedBuffer
take_next none = new_buffer
take_next (some b) = b

unfoldable pub append_to : Option FixedBuffer → List ℕ → Front → Outcome Front
append_to none line f = fault
append_to (some b) line f =
    if ltb (length line) (left_size b)
    then ok (record f { current = some (append b line) })
    else ok (record {
      current = some (append (take_next f.next) line);
      next = none;
      buffers = f.buffers ++ b ∷ [];
    })

unfoldable pub append_line : List ℕ → Front → Outcome Front
unfolding append_to
append_line line f = append_to f.current line f

-- The critical section of `ThreadFunc`: the writer takes the buffers and gives its own for them.
unfoldable pub swap_buffers : Option FixedBuffer → Front → Back → Outcome (Front × Back)
swap_buffers none f b = fault
swap_buffers (some c) f b =
    let filled = f.buffers ++ c ∷ [] in
    elim f.next [
      | none ↦ ok (
        record { current = b.new1; next = b.new2; buffers = b.to_write },
        record b { new1 = none; new2 = none; to_write = filled },
      )
      | some n ↦ ok (
        record { current = b.new1; next = some n; buffers = b.to_write },
        record b { new1 = none; to_write = filled },
      )
    ]

unfoldable pub collect : Front → Back → Outcome (Front × Back)
unfolding swap_buffers
collect f b = swap_buffers f.current f b

abbrev pub max_pending : ℕ
max_pending = 25

-- With more than 25 buffers a message takes the place of all but the first two.
unfoldable pub shed : List ℕ → Back → Back
shed message b =
    if ltb max_pending (length b.to_write)
    then record b { to_write = take 2 b.to_write; output = b.output ++ message ∷ [] }
    else b

unfoldable pub write_buffers : List FixedBuffer → List (List ℕ) → List (List ℕ)
write_buffers [] out = out
write_buffers (b ∷ bs) out = write_buffers bs (out ++ text b ∷ [])

-- The last buffer of a non-empty vector, emptied, and the others; an empty vector fails the assertion.
unfoldable pub take_back : List FixedBuffer → Outcome (FixedBuffer × List FixedBuffer)
take_back [] = fault
take_back (b ∷ []) = ok (reset b, [])
take_back (b ∷ c ∷ bs) = take_back (c ∷ bs) >>= λ r. ok (r.0, b ∷ r.1)

unfoldable pub refill :
    Option FixedBuffer → List FixedBuffer → Outcome (FixedBuffer × List FixedBuffer)
unfolding take_back
refill (some b) bs = ok (b, bs)
refill none bs = take_back bs

-- The rest of the round, outside of the critical section.
unfoldable pub write_out : List ℕ → Back → Outcome Back
unfolding shed write_buffers refill
write_out message b = do
  let c = shed message b
  r ← refill c.new1 (take 2 c.to_write)
  s ← refill c.new2 r.1
  ok (record {
    new1 = some r.0;
    new2 = some s.0;
    to_write = [];
    output = write_buffers c.to_write c.output;
  })
