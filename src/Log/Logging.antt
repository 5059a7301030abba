-- ===== src/Log/Logging.antt =====
-- framework/log/include/Logging.hpp and framework/log/src/Logging.cpp. What the system says of the time,
-- the thread and errno is in `Context`; a file name is its bytes, none of which is 0.
pub mod SourceFiles
pub mod Statements
use thread_library.Prelude.{
  ℕ, zero, suc, ◌+◌, ◌-◌, Bool, true, false, List, [], ◌∷◌, ◌++◌, Option, none, some, length, drop,
  leb, ◌==◌, if◌then◌else◌,
}
use thread_library.Prelude.Int.{pos}
use thread_library.Log.FixedBuffer.{FixedBuffer, text}
use thread_library.Log.FixedBuffer
use mathlib.Core.Option
use thread_library.Log.LogStream.{Item, integer, char, c_string, put_all, small_buffer}

pub data LogLevel : Type 0 where
  trace debug info warn error fatal : LogLevel

abbrev pub value : LogLevel → ℕ
value trace = 0
value debug = 1
value info = 2
value warn = 3
value error = 4
value fatal = 5

abbrev level_name : LogLevel → List ℕ
level_name trace = b'T' ∷ b'R' ∷ b'A' ∷ b'C' ∷ b'E' ∷ b' ' ∷ []
level_name debug = b'D' ∷ b'E' ∷ b'B' ∷ b'U' ∷ b'G' ∷ b' ' ∷ []
level_name info = b'I' ∷ b'N' ∷ b'F' ∷ b'O' ∷ b' ' ∷ b' ' ∷ []
level_name warn = b'W' ∷ b'A' ∷ b'R' ∷ b'N' ∷ b' ' ∷ b' ' ∷ []
level_name error = b'E' ∷ b'R' ∷ b'R' ∷ b'O' ∷ b'R' ∷ b' ' ∷ []
level_name fatal = b'F' ∷ b'A' ∷ b'T' ∷ b'A' ∷ b'L' ∷ b' ' ∷ []

-- The index of the last `c`.
unfoldable pub strrchr : List ℕ → ℕ → Option ℕ
strrchr [] c = none
strrchr (x ∷ xs) c = elim (strrchr xs c) [
  | some i ↦ some (i + 1)
  | none ↦ if x == c then some 0 else none
]

pub record SourceFile : Type 0 where
  pub base : List ℕ
  pub size : ℕ

-- From an array of `length arr + 1` characters.
unfoldable pub from_array : List ℕ → SourceFile
unfolding strrchr
from_array arr = elim (strrchr arr b'/') [
  | none ↦ record { base = arr; size = length arr }
  | some slash ↦ record { base = drop (slash + 1) arr; size = length arr - (slash + 1) }
]

unfoldable pub from_name : List ℕ → SourceFile
unfolding strrchr
from_name filename =
    let base : List ℕ = elim (strrchr filename b'/') [
      | none ↦ filename
      | some slash ↦ drop (slash + 1) filename
    ] in
    record { base = base; size = length base }

pub record Context : Type 0 where
  -- the text of `FormatTime`, and of the thread's number
  pub time : List ℕ
  pub tid : List ℕ
  pub errno : ℕ
  pub errno_text : List ℕ

pub record Logger : Type 0 where
  pub stream : FixedBuffer
  pub level : LogLevel
  pub basename : SourceFile
  pub line : ℕ
  pub print_errno : Bool

-- What each constructor writes first.
abbrev pub head_items : Context → LogLevel → List Item
head_items c level =
    c_string (some c.time) ∷ c_string (some c.tid) ∷ c_string (some (level_name level)) ∷ []

unfoldable pub create : Context → SourceFile → ℕ → LogLevel → Logger
unfolding FixedBuffer.create
create c file line level = record {
  stream = put_all (FixedBuffer.create small_buffer) (head_items c level);
  level = level;
  basename = file;
  line = line;
  print_errno = false;
}

unfoldable pub write : List Item → Logger → Logger
write is l = record l { stream = put_all l.stream is }

unfoldable pub create_func : Context → SourceFile → ℕ → LogLevel → List ℕ → Logger
unfolding create write
create_func c file line level func =
    write (c_string (some func) ∷ char b' ' ∷ []) (create c file line level)

unfoldable pub create_error : Context → SourceFile → ℕ → Bool → Logger
unfolding create
create_error c file line to_abort =
    record (create c file line (if to_abort then fatal else error)) { print_errno = true }

-- " System Error "
abbrev error_label : List ℕ
error_label =
    b' ' ∷ b'S' ∷ b'y' ∷ b's' ∷ b't' ∷ b'e' ∷ b'm' ∷ b' ' ∷ b'E' ∷ b'r' ∷ b'r' ∷ b'o' ∷ b'r' ∷ b' '
    ∷ []

abbrev pub errno_items : Context → List Item
errno_items c =
    c_string (some error_label)
    ∷ integer (pos c.errno)
    ∷ c_string (some (b' ' ∷ b':' ∷ b' ' ∷ []))
    ∷ c_string (some c.errno_text)
    ∷ []

abbrev pub tail_items : SourceFile → ℕ → List Item
tail_items file line =
    c_string (some (b' ' ∷ b'-' ∷ b' ' ∷ []))
    ∷ c_string (some file.base)
    ∷ char b':'
    ∷ integer (pos line)
    ∷ char b'\n'
    ∷ []

unfoldable pub finish : Context → Logger → Logger
unfolding write
finish c l =
    write (tail_items l.basename l.line) (if l.print_errno then write (errno_items c) l else l)

abbrev pub is_fatal : LogLevel → Bool
is_fatal fatal = true
is_fatal _ = false

-- What the destructor gives to the output function, and whether it then flushes, and aborts.
pub record Ended : Type 0 where
  pub output : List ℕ
  pub flushed : Bool
  pub aborted : Bool

unfoldable pub destroy : Context → Logger → Ended
unfolding finish
destroy c l =
    let d = finish c l in
    record { output = text d.stream; flushed = is_fatal d.level; aborted = is_fatal d.level }

-- The macros LOG_TRACE to LOG_SYSFATAL.
pub data Macro : Type 0 where
  log_trace log_debug log_info log_warn log_error log_fatal log_syserr log_sysfatal : Macro

pub record Place : Type 0 where
  pub file : SourceFile
  pub line : ℕ
  pub func : List ℕ

abbrev if_level : LogLevel → LogLevel → Logger → Option Logger
if_level global level l = if leb (value global) (value level) then some l else none

unfoldable pub open_statement : LogLevel → Context → Place → Macro → Option Logger
unfolding create create_func create_error
open_statement g c p log_trace = if_level g trace (create_func c p.file p.line trace p.func)
open_statement g c p log_debug = if_level g debug (create_func c p.file p.line debug p.func)
open_statement g c p log_info = if_level g info (create c p.file p.line info)
open_statement g c p log_warn = some (create c p.file p.line warn)
open_statement g c p log_error = some (create c p.file p.line error)
open_statement g c p log_fatal = some (create c p.file p.line fatal)
open_statement g c p log_syserr = some (create_error c p.file p.line false)
open_statement g c p log_sysfatal = some (create_error c p.file p.line true)

-- `LOG_X << item << …;`, where the temporary is destroyed at the end.
unfoldable pub statement : LogLevel → Context → Place → Macro → List Item → Option Ended
unfolding open_statement destroy write
statement g c p m is = Option.map (λ l. destroy c (write is l)) (open_statement g c p m)
