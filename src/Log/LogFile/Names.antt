-- ===== src/Log/LogFile/Names.antt =====
-- The names of the files of a log.
use mathlib.Core.List.{append_cancel_left, append_cancel_right}
use thread_library.Prelude.{
  ℕ, ◌+◌, ◌-◌, ◌≤◌, ◌≡◌, ◌≢◌, refl, ◌∙◌, Bool, true, false, List, [], ◌∷◌, Option, none, some, ltb,
  leb, ◌==◌, Bool-cases, inl, inr, ◌⊎◌, dec_lt, arith, ltb→lt,
}
use thread_library.Prelude.Outcome.{Outcome, ok, ◌>>=◌, Returns, Returns->>=, Returns-mono}
use thread_library.Base.WriteFile.{WriteFile, Fwrite, append}
use thread_library.Base.WriteFile
use thread_library.Log.LogFile.{
  LogFile, period, roll_file, check_time, after_write, append_unlocked, append_line, Environment,
  get_log_file_name,
}

-- The file in use was opened when the log was rolled last.
abbrev pub name_of : Environment → List ℕ → LogFile → List ℕ
name_of e basename l = get_log_file_name e basename l.last_roll

-- A line, with what the system answers while it is appended.
pub record Line : Type 0 where
  pub text : List ℕ
  pub write : Fwrite
  pub now : ℕ
  pub roll_now : ℕ
  pub opened : Bool

pub append_lines : Bool → List Line → LogFile → Outcome LogFile
append_lines thread_safe [] l = ok l
append_lines thread_safe (x ∷ xs) l =
    append_line thread_safe x.write x.now x.roll_now x.opened x.text l
    >>= append_lines thread_safe xs

abbrev Held : Option WriteFile → Type 0
Held none = ⊥
Held (some f) = Unit

-- Rolling moves on in time, and without it no file is left; there is a file afterwards if there was one.
pub record Moves (l m : LogFile) : Type 0 where
  pub held : Held l.file → Held m.file
  pub later : l.last_roll ≤ m.last_roll
  pub same : l.last_roll ≡ m.last_roll → m.closed ≡ l.closed

stays : (l : LogFile) → Moves l l
stays l = record { held = λ f. f; later = omega arith; same = λ e. refl }

Moves-trans : (l m n : LogFile) → Moves l m → Moves m n → Moves l n
Moves-trans l m n a b = record {
  held = λ f. b.held (a.held f);
  later = omega (arith, a.later, b.later);
  same = λ e.
      b.same (omega (arith, a.later, b.later, e)) ∙ a.same (omega (arith, a.later, b.later, e));
}

roll_file-Moves : (now : ℕ) (opened : Bool) (l : LogFile) → Moves l (roll_file now opened l).1
unfolding roll_file
roll_file-Moves now opened l = elim (Bool-cases (ltb l.last_roll now)) [
  | inl e ↦
      (let h = ltb→lt _ _ e in
        rw e (record {
          held = λ f. tt;
          later = omega (arith, h);
          same = λ f. absurd (omega (arith, f, h));
        }))
  | inr e ↦ rw e (stays l)
]

check_time-Moves :
    (now roll_now : ℕ) (opened : Bool) (l : LogFile) → Moves l (check_time now roll_now opened l)
unfolding check_time
check_time-Moves now roll_now opened l = elim (Bool-cases (period now == l.start_of_period)) [
  | inr e ↦ rw e (roll_file-Moves roll_now opened l)
  | inl e ↦ rw e (elim (Bool-cases (ltb l.flush_interval (now - l.last_flush))) [
    | inl f ↦ rw f (record { held = λ f. f; later = omega arith; same = λ g. refl })
    | inr f ↦ rw f (stays l)
  ])
]

after_write-Moves :
    (now roll_now : ℕ) (opened : Bool) (written : ℕ) (l : LogFile)
    → Moves l (after_write now roll_now opened written l)
unfolding after_write
after_write-Moves now roll_now opened written l = elim (Bool-cases (ltb l.roll_size written)) [
  | inl e ↦ rw e (roll_file-Moves roll_now opened l)
  | inr e ↦ rw e (elim (Bool-cases (leb l.check_every_n (l.count + 1))) [
    | inl f ↦ rw f (
        let c = check_time-Moves now roll_now opened (record l { count = 0 }) in
        record { held = c.held; later = c.later; same = c.same })
    | inr f ↦ rw f (record { held = λ f. f; later = omega arith; same = λ g. refl })
  ])
]

append_unlocked-Moves :
    (x : Line) (l : LogFile) (o : Option WriteFile)
    → l.file ≡ o
    → Held o
    → Returns
        (append_unlocked x.write x.now x.roll_now x.opened x.text l)
        (λ m. Moves l m × Held m.file)
unfolding append_unlocked
append_unlocked-Moves x l none e h = absurd h
append_unlocked-Moves x l (some f) e h =
    let g = (append x.write x.text f).1 in
    let m =
      after_write-Moves x.now x.roll_now x.opened (WriteFile.get_written_bytes g)
        (record l { file = some g }) in
    rw (e, append_unlocked)
      (record { held = λ k. m.held tt; later = m.later; same = m.same }, m.held tt)

append_line-Moves :
    (b : Bool) (x : Line) (l : LogFile)
    → Held l.file
    → Returns
        (append_line b x.write x.now x.roll_now x.opened x.text l)
        (λ m. Moves l m × Held m.file)
unfolding append_line
append_line-Moves true x l h = append_unlocked-Moves x l l.file refl h
append_line-Moves false x l h = append_unlocked-Moves x l l.file refl h

append_lines-Moves :
    (b : Bool) (xs : List Line) (l : LogFile)
    → Held l.file
    → Returns (append_lines b xs l) (Moves l)
unfolding append_lines
append_lines-Moves b [] l h = stays l
append_lines-Moves b (x ∷ xs) l h =
    Returns->>= (append_line b x.write x.now x.roll_now x.opened x.text l) (append_lines b xs) _ _
      (append_line-Moves b x l h)
      (λ m k.
        Returns-mono (append_lines b xs m) _ _ (append_lines-Moves b xs m k.1)
          (λ n j. Moves-trans l m n k.0 j))

names_by_time :
    (e : Environment) (basename : List ℕ) (s t : ℕ)
    → ((a b : ℕ) → e.stamp a ≡ e.stamp b → a ≡ b)
    → get_log_file_name e basename s ≡ get_log_file_name e basename t
    → s ≡ t
unfolding get_log_file_name
names_by_time e basename s t h k =
    h s t (append_cancel_right (e.stamp s) (e.stamp t) _ (append_cancel_left basename _ _ k))

-- No two files of a log have one name, if the texts of different times differ: any row of lines that are appended
-- to a log with a file, with or without the mutex, returns, and either the log was not rolled and no file was
-- left, or the file in use has another name than the one before the row.
pub names_differ :
    (e : Environment) (basename : List ℕ) (thread_safe : Bool) (xs : List Line) (l : LogFile)
    → ((a b : ℕ) → e.stamp a ≡ e.stamp b → a ≡ b)
    → Held l.file
    → Returns (append_lines thread_safe xs l) (λ m.
      ((m.last_roll ≡ l.last_roll) × (m.closed ≡ l.closed))
      ⊎ (name_of e basename m ≢ name_of e basename l))
names_differ e basename b xs l h f =
    Returns-mono (append_lines b xs l) (Moves l) _ (append_lines-Moves b xs l f) (λ m k.
      elim (dec_lt l.last_roll m.last_roll) [
        | yes later ↦ inr (λ n.
            absurd (omega (arith, later, names_by_time e basename m.last_roll l.last_roll h n)))
        | no not_later ↦
            inl (omega (arith, k.later, not_later), k.same (omega (arith, k.later, not_later)))
      ])
