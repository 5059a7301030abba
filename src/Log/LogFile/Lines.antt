-- ===== src/Log/LogFile/Lines.antt =====
-- What the files of a log have taken.
use thread_library.Prelude.{
  ℕ, ◌+◌, ◌-◌, ◌<◌, ◌≡◌, refl, sym, ap, ◌∙◌, true, List, ◌++◌, Option, none, some, length, ltb, leb,
  ◌==◌, Bool-cases, inl, inr, append_assoc, append-nil, arith, ==_true, lt→ltb, take-length,
}
use thread_library.Prelude.Outcome.{Returns}
use thread_library.Base.WriteFile.{WriteFile, Fwrite, append}
use thread_library.Base.WriteFile
use thread_library.Log.LogFile.{
  LogFile, period, contents_of, roll_file, check_time, after_write, append_unlocked, create,
}

abbrev IsOpen : Option WriteFile → Type 0
IsOpen none = ⊥
IsOpen (some f) = f.is_open ≡ true

-- All that the files have taken.
abbrev pub logged : LogFile → List ℕ
logged l = l.closed ++ contents_of l.file

pub record IsSound (l : LogFile) : Type 0 where
  pub opened : IsOpen l.file
  pub counted : l.count < l.check_every_n
  pub same_day : l.start_of_period ≡ period l.last_roll

-- The invariant, with so many bytes in the files.
pub record Keeps (xs : List ℕ) (l : LogFile) : Type 0 where
  pub inv : IsSound l
  pub all : logged l ≡ xs

roll_file-Keeps : (now : ℕ) (l : LogFile) → IsSound l → Keeps (logged l) (roll_file now true l).1
unfolding roll_file WriteFile.create
roll_file-Keeps now l h = elim (Bool-cases (ltb l.last_roll now)) [
  | inl e ↦ rw e (record {
    inv = record { opened = refl; counted = h.counted; same_day = refl };
    all = append-nil (logged l);
  })
  | inr e ↦ rw e (record { inv = h; all = refl })
]

check_time-Keeps :
    (now roll_now : ℕ) (l : LogFile) → IsSound l → Keeps (logged l) (check_time now roll_now true l)
unfolding check_time
check_time-Keeps now roll_now l h = elim (Bool-cases (period now == l.start_of_period)) [
  | inr e ↦ rw e (roll_file-Keeps roll_now l h)
  | inl e ↦ rw e (elim (Bool-cases (ltb l.flush_interval (now - l.last_flush))) [
    | inl f ↦ rw f (record {
      inv = record { opened = h.opened; counted = h.counted; same_day = h.same_day };
      all = refl;
    })
    | inr f ↦ rw f (record { inv = h; all = refl })
  ])
]

after_write-Keeps :
    (now roll_now written : ℕ) (l : LogFile)
    → IsSound l
    → Keeps (logged l) (after_write now roll_now true written l)
unfolding after_write
after_write-Keeps now roll_now written l h = elim (Bool-cases (ltb l.roll_size written)) [
  | inl e ↦ rw e (roll_file-Keeps roll_now l h)
  | inr e ↦ rw e (elim (Bool-cases (leb l.check_every_n (l.count + 1))) [
    | inl f ↦ rw f (
        check_time-Keeps now roll_now (record l { count = 0 })
          (record { opened = h.opened; counted = omega (arith, h.counted); same_day = h.same_day }))
    | inr f ↦
        (let c : l.count + 1 < l.check_every_n = ground arith in
          rw f (record {
            inv = record { opened = h.opened; counted = c; same_day = h.same_day };
            all = refl;
          }))
  ])
]

append_whole :
    (w : Fwrite) (line : List ℕ) (f : WriteFile)
    → f.is_open ≡ true
    → w.count ≡ length line
    → ((append w line f).1.is_open ≡ true) × ((append w line f).1.contents ≡ f.contents ++ line)
unfolding append
append_whole w line f o c = rw o (
    rw c (
      rw (==_true (length line) (length line) refl)
        (refl, ap (λ t. f.contents ++ t) (take-length line))))

-- `append` of a line that fwrite takes whole returns and keeps the invariant of a log file, and what the
-- files have taken grows by the line, also where the file is changed for its size or the day, as long as
-- the new one can be opened.
pub append_unlocked-Keeps :
    (w : Fwrite) (now roll_now : ℕ) (line : List ℕ) (l : LogFile)
    → IsSound l
    → w.count ≡ length line
    → Returns (append_unlocked w now roll_now true line l) (Keeps (logged l ++ line))
unfolding append_unlocked
append_unlocked-Keeps w now roll_now line l h c = by_file l.file h.opened
  where
    by_file :
        (o : Option WriteFile)
        → IsOpen o
        → Returns
            (append_unlocked w now roll_now true line (record l { file = o }))
            (Keeps ((l.closed ++ contents_of o) ++ line))
    by_file none o = absurd o
    by_file (some f) o =
        let a = append_whole w line f o c in
        let d : LogFile = record l { file = some (append w line f).1 } in
        let k =
          after_write-Keeps now roll_now (WriteFile.get_written_bytes (append w line f).1) d
            (record { opened = a.0; counted = h.counted; same_day = h.same_day }) in
        record {
          inv = k.inv;
          all = k.all ∙ ap (λ t. l.closed ++ t) a.1 ∙ sym (append_assoc l.closed f.contents line);
        }

pub create-IsSound :
    (roll_size flush_interval check_every_n now : ℕ)
    → 0 < check_every_n
    → 0 < now
    → IsSound (create roll_size flush_interval check_every_n now true)
unfolding create roll_file WriteFile.create
create-IsSound roll_size flush_interval check_every_n now some_lines late =
    rw (lt→ltb _ _ late, create) (record { opened = refl; counted = some_lines; same_day = refl })
