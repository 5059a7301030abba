-- ===== src/Net/Buffer/Fifo.antt =====
-- A valid Buffer is a queue of bytes: what each operation does to the bytes held.
use thread_library.Prelude.{
  ℕ, ◌+◌, ◌-◌, ◌≤◌, ◌<◌, ◌≡◌, refl, ap, ◌∙◌, inl, inr, List, [], ◌++◌, arith, length, slice, drop,
  write_at, length-write_at, ltb, Bool-cases, true, false, lt→ltb, le→ltb, ltb→lt, not-ltb,
  drop_all, subst,
}
use thread_library.Prelude.Slices.{slice-write_at_end, slice-write_at_front, slice-drop}
use thread_library.Prelude.Outcome.{ok, fatal, Returns, Returns->>=, Returns-mono}
use thread_library.Prelude.Words.{add64, sub64}
use thread_library.Net.Buffer.{
  Buffer, max_size, readable_bytes, writable_bytes, prependable_bytes, retrieve_all, retrieve,
  ensure_writable_bytes, has_written, append, prepend,
}
use thread_library.Net.Buffer.Contents.{
  IsValid, contents, Holds, readable_bytes_lem, writable_bytes_lem, length-contents,
  ensure_writable_bytes-Ensured,
}

unfoldable pub written : Buffer → List ℕ → Buffer
written c ds = record c { bytes = write_at c.bytes c.writer ds; writer = c.writer + length ds }

pub written-Holds :
    (c : Buffer) (ds : List ℕ)
    → IsValid c
    → length ds ≤ length c.bytes - c.writer
    → Holds (contents c ++ ds) (written c ds)
unfolding written
written-Holds c ds v room = record { valid = whole; held = added }
  where
    size : length (write_at c.bytes c.writer ds) ≡ length c.bytes
    size = length-write_at c.bytes c.writer ds

    whole : IsValid (written c ds)
    whole = omega (arith, size)

    n : ℕ
    n = c.writer - c.reader

    added : contents (written c ds) ≡ contents c ++ ds
    added =
        ap (slice (write_at c.bytes c.writer ds) c.reader) (
          let e : c.writer + length ds - c.reader ≡ c.writer - c.reader + length ds = omega arith in
          e)
        ∙ ap (λ k. slice (write_at c.bytes k ds) c.reader (n + length ds))
            (let e : c.writer ≡ c.reader + (c.writer - c.reader) = omega arith in e)
        ∙ slice-write_at_end c.bytes ds c.reader n (omega arith)

has_written-eq :
    (c : Buffer) (ds : List ℕ)
    → IsValid c
    → length ds ≤ writable_bytes c
    → has_written (record c { bytes = write_at c.bytes c.writer ds }) (length ds)
      ≡ ok (written c ds)
unfolding has_written written writable_bytes
has_written-eq c ds v room =
    let size : length (write_at c.bytes c.writer ds) ≡ length c.bytes =
      length-write_at c.bytes c.writer ds in
    let fits : add64 c.writer (length ds) ≡ c.writer + length ds = omega arith in
    rw (size, le→ltb _ _ room, fits)

-- Moreover the writer moves no further than by what is appended.
pub append-Appends :
    (b : Buffer) (ds : List ℕ)
    → IsValid b
    → b.writer + length ds ≤ max_size
    → Returns (append b ds) (λ c. Holds (contents b ++ ds) c × (c.writer ≤ b.writer + length ds))
unfolding append written
append-Appends b ds v h =
    Returns->>= (ensure_writable_bytes b (length ds)) _ _ _
      (ensure_writable_bytes-Ensured b (length ds) v h)
      (λ c p.
        let w = p.holds.valid in
        rw (has_written-eq c ds w p.room) (
          subst (λ xs. Holds (xs ++ ds) (written c ds)) p.holds.held
              (written-Holds c ds w (omega (arith, p.room, writable_bytes_lem c w))),
          omega (arith, p.writer),
        ))

-- `Append` puts the bytes behind those held, and returns, while the vector may grow as far.
pub append-Holds :
    (b : Buffer) (ds : List ℕ)
    → IsValid b
    → b.writer + length ds ≤ max_size
    → Returns (append b ds) (Holds (contents b ++ ds))
append-Holds b ds v h =
    Returns-mono (append b ds) _ (Holds (contents b ++ ds)) (append-Appends b ds v h) (λ c p. p.0)

-- `Prepend` puts the bytes before those held, and aborts where the front has no room for them.
pub prepend-Holds :
    (b : Buffer) (ds : List ℕ)
    → IsValid b
    → (length ds ≤ b.reader → Returns (prepend b ds) (Holds (ds ++ contents b)))
      × (b.reader < length ds → prepend b ds ≡ fatal)
unfolding prepend prependable_bytes
prepend-Holds b ds v = (front, λ h. rw (lt→ltb _ _ h))
  where
    front : length ds ≤ b.reader → Returns (prepend b ds) (Holds (ds ++ contents b))
    front h = rw (le→ltb _ _ h, start) (record { valid = whole; held = held })
      where
        start : sub64 b.reader (length ds) ≡ b.reader - length ds
        start = omega arith

        i : ℕ
        i = b.reader - length ds

        after : Buffer
        after = record b { reader = i; bytes = write_at b.bytes i ds }

        size : length (write_at b.bytes i ds) ≡ length b.bytes
        size = length-write_at b.bytes i ds

        whole : IsValid after
        whole = omega (arith, size)

        held : contents after ≡ ds ++ contents b
        held =
            ap (slice (write_at b.bytes i ds) i) (
              let e : b.writer - (b.reader - length ds) ≡ length ds + (b.writer - b.reader) =
                omega arith in
              e)
            ∙ slice-write_at_front b.bytes ds i (b.writer - b.reader) (omega arith)
            ∙ ap (λ k. ds ++ slice b.bytes k (b.writer - b.reader))
                (let e : b.reader - length ds + length ds ≡ b.reader = omega arith in e)

pub retrieve_all-Holds : (b : Buffer) → IsValid b → Holds [] (retrieve_all b)
unfolding retrieve_all
retrieve_all-Holds b v = record { valid = omega arith; held = refl }

-- `Retrieve` takes the first bytes away, all of them if there are no more.
pub retrieve-Holds :
    (b : Buffer) (len : ℕ) → IsValid b → Holds (drop len (contents b)) (retrieve b len)
unfolding retrieve
retrieve-Holds b len v = elim (Bool-cases (ltb len (readable_bytes b))) [
  | inl some_left ↦ rw some_left (record { valid = whole some_left; held = rest some_left })
  | inr none_left ↦ rw (none_left, nothing none_left) (retrieve_all-Holds b v)
]
  where
    less : ltb len (readable_bytes b) ≡ true → len < b.writer - b.reader
    less e = omega (arith, ltb→lt _ _ e, readable_bytes_lem b v)

    whole : ltb len (readable_bytes b) ≡ true → IsValid (record b { reader = add64 b.reader len })
    whole e = omega (arith, less e)

    rest :
        ltb len (readable_bytes b) ≡ true
        → slice b.bytes (add64 b.reader len) (b.writer - add64 b.reader len) ≡ drop len (contents b)
    rest e =
        ap (λ k. slice b.bytes k (b.writer - k))
          (let e : add64 b.reader len ≡ b.reader + len = omega (arith, less e) in e)
        ∙ ap (slice b.bytes (b.reader + len))
            (let e : b.writer - (b.reader + len) ≡ b.writer - b.reader - len = omega arith in e)
        ∙ slice-drop b.bytes b.reader len (b.writer - b.reader)

    nothing : ltb len (readable_bytes b) ≡ false → drop len (contents b) ≡ []
    nothing e =
        drop_all len (contents b)
          (omega (arith, not-ltb _ _ e, readable_bytes_lem b v, length-contents b v))
