-- ===== src/Log/LogFile.antt =====
-- framework/log/include/LogFile.hpp and framework/log/src/LogFile.cpp. The answers of time(2), of fopen
-- and of fwrite are arguments; `closed` holds what the files before the current one have taken.
pub mod Lines
pub mod Names
use thread_library.Prelude.{
  ℕ, ◌+◌, ◌-◌, ◌*◌, ◌/◌, Bool, true, false, not, List, [], ◌∷◌, ◌++◌, Option, none, some, ltb, leb,
  ◌==◌, if◌then◌else◌,
}
use thread_library.Prelude.Outcome.{Outcome, ok, fault}
use thread_library.Base.WriteFile.{WriteFile, Fwrite, append, get_written_bytes}
use thread_library.Base.WriteFile

abbrev roll_per_seconds : ℕ
roll_per_seconds = 60 * 60 * 24

pub record LogFile : Type 0 where
  pub roll_size : ℕ
  pub flush_interval : ℕ
  pub check_every_n : ℕ
  pub count : ℕ
  pub start_of_period : ℕ
  pub last_roll : ℕ
  pub last_flush : ℕ
  pub file : Option WriteFile
  pub closed : List ℕ

-- `now / kRollPerSeconds_ * kRollPerSeconds_`
abbrev pub period : ℕ → ℕ
period now = now / roll_per_seconds * roll_per_seconds

abbrev pub contents_of : Option WriteFile → List ℕ
contents_of none = []
contents_of (some f) = f.contents

unfoldable pub roll_file : ℕ → Bool → LogFile → Bool × LogFile
unfolding WriteFile.create
roll_file now opened l =
    if ltb l.last_roll now
    then (
      true,
      record l {
        last_roll = now;
        last_flush = now;
        start_of_period = period now;
        file = some (WriteFile.create opened);
        closed = l.closed ++ contents_of l.file;
      },
    )
    else (false, l)

unfoldable pub create : ℕ → ℕ → ℕ → ℕ → Bool → LogFile
unfolding roll_file
create roll_size flush_interval check_every_n now opened =
    (roll_file now opened (record {
      roll_size = roll_size;
      flush_interval = flush_interval;
      check_every_n = check_every_n;
      count = 0;
      start_of_period = 0;
      last_roll = 0;
      last_flush = 0;
      file = none;
      closed = [];
    })).1

-- Every so many lines the time decides whether to roll, or to flush.
unfoldable pub check_time : ℕ → ℕ → Bool → LogFile → LogFile
unfolding roll_file
check_time now roll_now opened l =
    if not (period now == l.start_of_period)
    then (roll_file roll_now opened l).1
    else if ltb l.flush_interval (now - l.last_flush)
    then record l { last_flush = now }
    else l

-- After the line is written.
unfoldable pub after_write : ℕ → ℕ → Bool → ℕ → LogFile → LogFile
unfolding check_time roll_file
after_write now roll_now opened written l =
    if ltb l.roll_size written
    then (roll_file roll_now opened l).1
    else if leb l.check_every_n (l.count + 1)
    then check_time now roll_now opened (record l { count = 0 })
    else record l { count = l.count + 1 }

-- `file_` is dereferenced without a test.
unfoldable pub append_unlocked : Fwrite → ℕ → ℕ → Bool → List ℕ → LogFile → Outcome LogFile
unfolding append get_written_bytes after_write
append_unlocked w now roll_now opened line l = elim l.file [
  | none ↦ fault
  | some f ↦
      (let g = (append w line f).1 in
        ok (after_write now roll_now opened (get_written_bytes g) (record l { file = some g })))
]

-- With or without the mutex, `append` is the same on the state.
unfoldable pub append_line : Bool → Fwrite → ℕ → ℕ → Bool → List ℕ → LogFile → Outcome LogFile
unfolding append_unlocked
append_line thread_safe w now roll_now opened line l =
    if thread_safe
    then append_unlocked w now roll_now opened line l
    else append_unlocked w now roll_now opened line l

unfoldable pub flush : ℕ → LogFile → Outcome LogFile
flush answer l = elim l.file [ none ↦ fault | some f ↦ ok l ]

-- What `getLogFileName` asks the system for: the text of a time, the names of the host and the user where
-- there is an answer, and the text of the process's number.
pub record Environment : Type 0 where
  pub stamp : ℕ → List ℕ
  pub host : Option (List ℕ)
  pub user : Option (List ℕ)
  pub pid : List ℕ

abbrev or_empty : Option (List ℕ) → List ℕ
or_empty none = []
or_empty (some t) = t

-- `now` is what time(2) answers to it.
unfoldable pub get_log_file_name : Environment → List ℕ → ℕ → List ℕ
get_log_file_name e basename now =
    basename
    ++ (e.stamp now
        ++ (or_empty e.host
            ++ (or_empty e.user ++ b'.' ∷ (e.pid ++ b'.' ∷ b'l' ∷ b'o' ∷ b'g' ∷ []))))
