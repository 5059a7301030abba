-- ===== src/Log/Logging/Statements.antt =====
-- The lines that the macros log.
use thread_library.Prelude.{
  ℕ, ◌+◌, ◌≤◌, ◌≡◌, refl, sym, ap, ◌∙◌, append_assoc, Bool, true, false, List, [], ◌∷◌, ◌++◌, none,
  some, length, All, leb, arith, if◌then◌else◌,
}
use mathlib.Core.Option
use thread_library.Log.FixedBuffer.{
  FixedBuffer, text, Holds, create-Holds, left_size, left_size-create,
}
use thread_library.Log.FixedBuffer
use thread_library.Prelude.Int.{pos}
use thread_library.Base.Convert.{convert}
use thread_library.Log.LogStream.{
  Item, c_string, char, put, put_all, max_numeric_size, small_buffer,
}
use thread_library.Log.LogStream.Written.{IsPrintable, render, render_all, put_all-Holds}
use thread_library.Log.Logging.{
  LogLevel, trace, debug, info, warn, error, fatal, value, Context, Logger, head_items, create,
  write, create_func, create_error, errno_items, tail_items, finish, Ended, destroy, Macro,
  log_trace, log_debug, log_info, log_warn, log_error, log_fatal, log_syserr, log_sysfatal, Place,
  open_statement, statement,
}

abbrev level_of : Macro → LogLevel
level_of log_trace = trace
level_of log_debug = debug
level_of log_info = info
level_of log_warn = warn
level_of log_error = error
level_of log_fatal = fatal
level_of log_syserr = error
level_of log_sysfatal = fatal

-- LOG_TRACE, LOG_DEBUG and LOG_INFO are subject to the level.
abbrev passes : LogLevel → Macro → Bool
passes g log_trace = leb (value g) 0
passes g log_debug = leb (value g) 1
passes g log_info = leb (value g) 2
passes g _ = true

abbrev func_items : Place → Macro → List Item
func_items p log_trace = c_string (some p.func) ∷ char b' ' ∷ []
func_items p log_debug = c_string (some p.func) ∷ char b' ' ∷ []
func_items p _ = []

abbrev error_items : Context → Macro → List Item
error_items c log_syserr = errno_items c
error_items c log_sysfatal = errno_items c
error_items c _ = []

-- All that a line consists of.
abbrev line_items : Context → Place → Macro → List Item → List Item
line_items c p m is =
    head_items c (level_of m)
    ++ (func_items p m ++ (is ++ (error_items c m ++ tail_items p.file p.line)))

put_all-append :
    (b : FixedBuffer) (is js : List Item) → put_all (put_all b is) js ≡ put_all b (is ++ js)
unfolding put_all
put_all-append b [] js = refl
put_all-append b (i ∷ is) js = put_all-append (put b i) is js

put_all-four :
    (b : FixedBuffer) (is js ks ls : List Item)
    → put_all (put_all (put_all (put_all b is) js) ks) ls ≡ put_all b (is ++ (js ++ (ks ++ ls)))
put_all-four b is js ks ls =
    put_all-append (put_all (put_all b is) js) ks ls
    ∙ put_all-append (put_all b is) js (ks ++ ls)
    ∙ put_all-append b is (js ++ (ks ++ ls))

All-append :
    (is js : List Item) → All IsPrintable is → All IsPrintable js → All IsPrintable (is ++ js)
All-append [] js h k = k
All-append (i ∷ is) js h k = (h.0, All-append is js h.1 k)

line_items_print :
    (c : Context) (p : Place) (m : Macro) (is : List Item)
    → All IsPrintable is
    → All IsPrintable (line_items c p m is)
line_items_print c p m is h =
    All-append (head_items c (level_of m)) _ (tt, (tt, (tt, tt)))
      (All-append (func_items p m) _ (func m) (
        All-append is _ h
          (All-append (error_items c m) _ (errno m) (tt, (tt, (tt, (tt, (tt, tt))))))))
  where
    func : (m : Macro) → All IsPrintable (func_items p m)
    func log_trace = (tt, (tt, tt))
    func log_debug = (tt, (tt, tt))
    func _ = tt

    errno : (m : Macro) → All IsPrintable (error_items c m)
    errno log_syserr = (tt, (tt, (tt, (tt, tt))))
    errno log_sysfatal = (tt, (tt, (tt, (tt, tt))))
    errno _ = tt

-- The line as a text, apart from the code: first the name of the level.
abbrev level_text : Macro → List ℕ
level_text log_trace = b'T' ∷ b'R' ∷ b'A' ∷ b'C' ∷ b'E' ∷ b' ' ∷ []
level_text log_debug = b'D' ∷ b'E' ∷ b'B' ∷ b'U' ∷ b'G' ∷ b' ' ∷ []
level_text log_info = b'I' ∷ b'N' ∷ b'F' ∷ b'O' ∷ b' ' ∷ b' ' ∷ []
level_text log_warn = b'W' ∷ b'A' ∷ b'R' ∷ b'N' ∷ b' ' ∷ b' ' ∷ []
level_text log_error = b'E' ∷ b'R' ∷ b'R' ∷ b'O' ∷ b'R' ∷ b' ' ∷ []
level_text log_fatal = b'F' ∷ b'A' ∷ b'T' ∷ b'A' ∷ b'L' ∷ b' ' ∷ []
level_text log_syserr = b'E' ∷ b'R' ∷ b'R' ∷ b'O' ∷ b'R' ∷ b' ' ∷ []
level_text log_sysfatal = b'F' ∷ b'A' ∷ b'T' ∷ b'A' ∷ b'L' ∷ b' ' ∷ []

-- The function's name, and the system error, before the rest of the line.
abbrev func_text : Place → Macro → List ℕ → List ℕ
func_text p log_trace rest = p.func ++ b' ' ∷ rest
func_text p log_debug rest = p.func ++ b' ' ∷ rest
func_text p _ rest = rest

abbrev system_error : Context → List ℕ → List ℕ
system_error c rest =
    b' '
    ∷ b'S'
    ∷ b'y'
    ∷ b's'
    ∷ b't'
    ∷ b'e'
    ∷ b'm'
    ∷ b' '
    ∷ b'E'
    ∷ b'r'
    ∷ b'r'
    ∷ b'o'
    ∷ b'r'
    ∷ b' '
    ∷ (convert (pos c.errno) ++ b' ' ∷ b':' ∷ b' ' ∷ (c.errno_text ++ rest))

abbrev error_text : Context → Macro → List ℕ → List ℕ
error_text c log_syserr rest = system_error c rest
error_text c log_sysfatal rest = system_error c rest
error_text c _ rest = rest

abbrev place_text : Place → List ℕ
place_text p = b' ' ∷ b'-' ∷ b' ' ∷ (p.file.base ++ b':' ∷ (convert (pos p.line) ++ b'\n' ∷ []))

abbrev pub line_text : Context → Place → Macro → List Item → List ℕ
line_text c p m is =
    c.time
    ++ (c.tid ++ (level_text m ++ func_text p m (render_all is ++ error_text c m (place_text p))))

-- The macros whose statement flushes and aborts.
abbrev pub aborts : Macro → Bool
aborts log_fatal = true
aborts log_sysfatal = true
aborts _ = false

render_all-append : (is js : List Item) → render_all (is ++ js) ≡ render_all is ++ render_all js
unfolding render_all
render_all-append [] js = refl
render_all-append (i ∷ is) js =
    ap (λ t. render i ++ t) (render_all-append is js)
    ∙ sym (append_assoc (render i) (render_all is) (render_all js))

rendered :
    (c : Context) (p : Place) (m : Macro) (is : List Item)
    → render_all (line_items c p m is) ≡ line_text c p m is
unfolding render_all render
rendered c p log_trace is = rw (render_all-append is) refl
rendered c p log_debug is = rw (render_all-append is) refl
rendered c p log_info is = rw (render_all-append is) refl
rendered c p log_warn is = rw (render_all-append is) refl
rendered c p log_error is = rw (render_all-append is) refl
rendered c p log_fatal is = rw (render_all-append is) refl
rendered c p log_syserr is = rw (render_all-append is) refl
rendered c p log_sysfatal is = rw (render_all-append is) refl

-- A line with 32 bytes to spare, and what its destructor does.
abbrev pub expected : Context → Place → Macro → List Item → Ended
expected c p m is = record { output = line_text c p m is; flushed = aborts m; aborted = aborts m }

module _ (c : Context) (p : Place) (m : Macro) (is : List Item) where
  output_is :
      (s : FixedBuffer)
      → s ≡ put_all (FixedBuffer.create small_buffer) (line_items c p m is)
      → All IsPrintable is
      → length (line_text c p m is) + max_numeric_size ≤ small_buffer
      → (record { output = text s; flushed = aborts m; aborted = aborts m }) ≡ expected c p m is
  output_is s e h room =
      ap
        (λ (t : List ℕ).
          let r : Ended = record { output = t; flushed = aborts m; aborted = aborts m } in r)
        (ap text e
          ∙ (put_all-Holds (FixedBuffer.create small_buffer) (line_items c p m is) start.valid
              (line_items_print c p m is h)
              (omega (arith, room, free, ap length (rendered c p m is)))).held
          ∙ ap (λ t. t ++ render_all (line_items c p m is)) start.held
          ∙ rendered c p m is)
    where
      start : Holds small_buffer [] (FixedBuffer.create small_buffer)
      start = create-Holds small_buffer

      free : left_size (FixedBuffer.create small_buffer) ≡ small_buffer
      free = left_size-create small_buffer

  -- The stream of a logger that has written its first items, the message and the end of the line.
  chained :
      (js ks ls : List Item)
      → head_items c (level_of m) ++ (js ++ (ks ++ (ls ++ tail_items p.file p.line)))
        ≡ line_items c p m is
      → put_all
          (put_all
            (put_all
              (put_all (put_all (FixedBuffer.create small_buffer) (head_items c (level_of m))) js)
              ks)
            ls)
          (tail_items p.file p.line)
        ≡ put_all (FixedBuffer.create small_buffer) (line_items c p m is)
  chained js ks ls e =
      put_all-append _ ls (tail_items p.file p.line)
      ∙ put_all-four _ (head_items c (level_of m)) js ks (ls ++ tail_items p.file p.line)
      ∙ ap (put_all (FixedBuffer.create small_buffer)) e

filtered :
    (b : Bool) (f : Logger → Ended) (l : Logger) (e : Ended)
    → f l ≡ e
    → Option.map f (if b then some l else none) ≡ (if b then some e else none)
filtered true f l e h = ap some h
filtered false f l e h = refl

-- A log statement whose whole line leaves 32 bytes of the stream's buffer free logs nothing if it is
-- LOG_TRACE, LOG_DEBUG or LOG_INFO below the level; otherwise it gives exactly its line to the output
-- function: time, thread, level, the function for LOG_TRACE and LOG_DEBUG, the message, the system error
-- for LOG_SYSERR and LOG_SYSFATAL, file and line; then LOG_FATAL and LOG_SYSFATAL flush and abort, and no
-- other does.
pub statement_lem :
    (g : LogLevel) (c : Context) (p : Place) (m : Macro) (is : List Item)
    → All IsPrintable is
    → length (line_text c p m is) + max_numeric_size ≤ small_buffer
    → statement g c p m is ≡ (if passes g m then some (expected c p m is) else none)
unfolding statement open_statement create create_func create_error write finish destroy put_all
statement_lem g c p log_trace is h room = filtered (passes g log_trace) _ _ _ (
    output_is c p log_trace is _ (chained c p log_trace is (func_items p log_trace) is [] refl) h
      room)
statement_lem g c p log_debug is h room = filtered (passes g log_debug) _ _ _ (
    output_is c p log_debug is _ (chained c p log_debug is (func_items p log_debug) is [] refl) h
      room)
statement_lem g c p log_info is h room =
    filtered (passes g log_info) _ _ _
      (output_is c p log_info is _ (chained c p log_info is [] is [] refl) h room)
statement_lem g c p log_warn is h room =
    ap some (output_is c p log_warn is _ (chained c p log_warn is [] is [] refl) h room)
statement_lem g c p log_error is h room =
    ap some (output_is c p log_error is _ (chained c p log_error is [] is [] refl) h room)
statement_lem g c p log_fatal is h room =
    ap some (output_is c p log_fatal is _ (chained c p log_fatal is [] is [] refl) h room)
statement_lem g c p log_syserr is h room =
    ap some
      (output_is c p log_syserr is _ (chained c p log_syserr is [] is (errno_items c) refl) h room)
statement_lem g c p log_sysfatal is h room = ap some (
    output_is c p log_sysfatal is _ (chained c p log_sysfatal is [] is (errno_items c) refl) h room)
