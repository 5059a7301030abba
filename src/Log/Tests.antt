-- ===== src/Log/Tests.antt =====
-- Runs of framework/log on small inputs.
use thread_library.Prelude.{
  ℕ, List, [], ◌∷◌, ◌++◌, some, length, refl, ◌≡◌, ◌≢◌, ◌⊎◌, none, arith, true,
}
use thread_library.Prelude.Int.{pos, negsuc}
use thread_library.Prelude.Outcome.{Returns, ◌>>=◌}
use thread_library.Log.FixedBuffer.{FixedBuffer, left_size, append, text, Holds, append_lem}
use thread_library.Log.LogStream.{Item, bool, integer, pointer, string, put}
use thread_library.Log.LogStream.Written.{Wrote, render, render_all, put-Wrote}
use thread_library.Log.AsyncLogging.{Front, Back, start_thread, append_line, collect, write_out}
use thread_library.Log.AsyncLogging
use thread_library.Log.AsyncLogging.Stream.{FrontInv, pending, create-FrontInv}
use thread_library.Log.AsyncLogging.Runs.{
  Event, appends, advances, stops, started, run, finish_round,
}
use thread_library.Log.AsyncLogging.Runs.Whole.{Whole, run-Whole}
use thread_library.Log.AsyncLogging.Writer.{joined, Round, collect-write_out, start_thread-BackInv}
use thread_library.Log.FixedBuffer
use thread_library.Base.Convert.{convert}
use thread_library.Log.LogFile.Names.{Line, append_lines, name_of, names_differ}
use thread_library.Log.LogFile.{LogFile, Environment, append_unlocked}
use thread_library.Log.LogFile
use thread_library.Log.LogFile.Lines.{Keeps, logged, create-IsSound, append_unlocked-Keeps}
use thread_library.Log.Logging.{Context, Place, from_array, from_name, statement, log_fatal, warn}
use thread_library.Log.Logging.SourceFiles.{IsBase, from_name-IsBase}
use thread_library.Log.Logging.Statements.{statement_lem, expected}

abbrev small : FixedBuffer
small = record { bytes = 1 ∷ 2 ∷ 0 ∷ 0 ∷ []; current = 2 }

abbrev empty : FixedBuffer
empty = FixedBuffer.create 60

put_example : Wrote empty (render (integer (negsuc 41))) (put empty (integer (negsuc 41)))
unfolding FixedBuffer.create
put_example = put-Wrote empty (integer (negsuc 41)) (omega arith) tt

abbrev items : List Item
items = bool true ∷ integer (pos 42) ∷ string (b'o' ∷ b'k' ∷ []) ∷ pointer 255 ∷ []

abbrev line : List ℕ
line = b'h' ∷ b'i' ∷ []

-- A line is added while the writer is between the two halves of its round, and then the log is stopped.
abbrev calls_of_log : List Event
calls_of_log =
    appends line ∷ advances [] ∷ advances [] ∷ appends line ∷ advances [] ∷ stops ∷ advances [] ∷ []

run-Whole_example :
    Returns (run calls_of_log started >>= finish_round []) (λ s. Whole s (joined s.back.output))
run-Whole_example =
    run-Whole calls_of_log [] (omega arith, (tt, (tt, (omega arith, (tt, (tt, (tt, tt)))))))

collect_example : Returns (collect AsyncLogging.create start_thread) λ r.
    FrontInv r.0
    × (pending r.0 ≡ [])
    × Returns (write_out line r.1) (Round AsyncLogging.create start_thread)
collect_example =
    collect-write_out AsyncLogging.create start_thread line create-FrontInv start_thread-BackInv

abbrev log_file : LogFile
log_file = LogFile.create 1 3 1024 90000 true

-- The line is longer than the roll size, and the next second has come.
append_unlocked_example :
    Returns
      (append_unlocked (record { count = 2; error = 0 }) 90001 90001 true line log_file)
      (Keeps (logged log_file ++ line))
append_unlocked_example =
    append_unlocked-Keeps (record { count = 2; error = 0 }) 90001 90001 line log_file
      (create-IsSound 1 3 1024 90000 (omega arith) (omega arith)) refl

abbrev path : List ℕ
path = b'a' ∷ b'/' ∷ b'b' ∷ b'.' ∷ b'c' ∷ []

from_name_example :
    IsBase path (from_name path).base
    × ((from_name path).size ≡ length (from_name path).base)
    × (from_array path ≡ from_name path)
from_name_example = from_name-IsBase path

abbrev context : Context
context = record {
  time = b'1' ∷ b'2' ∷ [];
  tid = b'7' ∷ b' ' ∷ [];
  errno = 2;
  errno_text = b'n' ∷ b'o' ∷ [];
}

abbrev place : Place
place = record {
  file = record { base = b'b' ∷ b'.' ∷ b'c' ∷ []; size = 3 };
  line = 12;
  func = b'f' ∷ [];
}

-- The level does not keep a fatal line back.
statement_example :
    statement warn context place log_fatal (string line ∷ [])
    ≡ some (expected context place log_fatal (string line ∷ []))
unfolding render_all render convert
statement_example =
    statement_lem warn context place log_fatal (string line ∷ []) (tt, tt) (omega arith)

abbrev environment : Environment
environment = record { stamp = λ n. n ∷ []; host = none; user = some (b'u' ∷ []); pid = b'7' ∷ [] }

-- The first line makes the log roll, the second comes in the same second.
abbrev lines : List Line
lines =
    record {
      text = line;
      write = record { count = 2; error = 0 };
      now = 90001;
      roll_now = 90001;
      opened = true;
    }
    ∷ record {
      text = line;
      write = record { count = 2; error = 0 };
      now = 90001;
      roll_now = 90001;
      opened = true;
    }
    ∷ []

first_is_one : (a b : ℕ) → (a ∷ [] ≡ b ∷ []) → a ≡ b
first_is_one a b e = cc e

names_differ_example : Returns (append_lines true lines log_file) (λ m.
    ((m.last_roll ≡ log_file.last_roll) × (m.closed ≡ log_file.closed))
    ⊎ (name_of environment line m ≢ name_of environment line log_file))
unfolding LogFile.create LogFile.roll_file
names_differ_example = names_differ environment line true lines log_file first_is_one tt
