-- ===== src/Net/Buffer/Contents.antt =====
-- The representation invariant of a Buffer, and the bytes that it holds between its two indices.
use thread_library.Prelude.{
  ℕ, ◌+◌, ◌-◌, ◌≤◌, ◌<◌, ◌≡◌, refl, sym, ap, ◌∙◌, inl, inr, List, [], ◌++◌, arith, length, slice,
  write_at, resize, length-write_at, length-resize, length-slice, ltb, Bool-cases, false,
  append-nil, lt→ltb, le→ltb, ltb→lt, not-ltb, ==_iff, Bool,
}
use thread_library.Prelude.Slices.{slice-write_at_front, slice-resize}
use thread_library.Prelude.Outcome.{ok, Returns, Returns-mono}
use thread_library.Prelude.Words.{add64, sub64}
use thread_library.Net.Buffer.{
  Buffer, cheap_prepend, max_size, create, readable_bytes, writable_bytes, prependable_bytes, grow,
  compact, make_space, ensure_writable_bytes,
}

pub record IsValid (b : Buffer) : Type 0 where
  pub ordered : b.reader ≤ b.writer
  pub within : b.writer ≤ length b.bytes
  pub header : cheap_prepend ≤ length b.bytes
  pub bounded : length b.bytes ≤ max_size

-- The bytes that a reader has not yet taken.
abbrev pub contents : Buffer → List ℕ
contents b = slice b.bytes b.reader (b.writer - b.reader)

-- The state that a call leaves: valid, and holding these bytes.
pub record Holds (xs : List ℕ) (b : Buffer) : Type 0 where
  pub valid : IsValid b
  pub held : contents b ≡ xs

pub readable_bytes_lem : (b : Buffer) → IsValid b → readable_bytes b ≡ b.writer - b.reader
unfolding readable_bytes
readable_bytes_lem b v = omega arith

pub writable_bytes_lem : (b : Buffer) → IsValid b → writable_bytes b ≡ length b.bytes - b.writer
unfolding writable_bytes
writable_bytes_lem b v = omega arith

pub length-contents : (b : Buffer) → IsValid b → length (contents b) ≡ b.writer - b.reader
length-contents b v = length-slice b.bytes b.reader (b.writer - b.reader) (omega arith)

-- The three size queries of a valid buffer split its vector, with no wrap-around.
sizes_partition :
    (b : Buffer)
    → IsValid b
    → (prependable_bytes b + readable_bytes b + writable_bytes b ≡ length b.bytes)
      × (readable_bytes b ≡ length (contents b))
unfolding prependable_bytes
sizes_partition b v = (
  omega (arith, readable_bytes_lem b v, writable_bytes_lem b v),
  readable_bytes_lem b v ∙ sym (length-contents b v),
)

pub create-Holds : (size : ℕ) → Holds [] (create size)
unfolding create
create-Holds size = record { valid = omega arith; held = refl }

grown : Buffer → ℕ → Buffer
grown b len = record b { bytes = resize b.bytes (b.writer + len) 0 }

grow-eq : (b : Buffer) (len : ℕ) → b.writer + len ≤ max_size → grow b len ≡ ok (grown b len)
unfolding grow grown
grow-eq b len h =
    let fits : add64 b.writer len ≡ b.writer + len = omega arith in
    rw (fits, le→ltb max_size (b.writer + len) h)

grown-Holds :
    (b : Buffer) (len : ℕ)
    → IsValid b
    → b.writer + len ≤ max_size
    → length b.bytes < b.writer + len
    → Holds (contents b) (grown b len) × (len ≤ writable_bytes (grown b len))
unfolding grown
grown-Holds b len v h over = (record { valid = whole; held = kept }, room)
  where
    size : length (resize b.bytes (b.writer + len) 0) ≡ b.writer + len
    size = length-resize b.bytes (b.writer + len) 0

    whole : IsValid (grown b len)
    whole = omega (arith, size)

    kept : contents (grown b len) ≡ contents b
    kept =
        slice-resize b.bytes (b.writer + len) b.reader (b.writer - b.reader) 0 (omega arith)
          (omega arith)

    room : len ≤ writable_bytes (grown b len)
    room = omega (arith, writable_bytes_lem (grown b len) whole, size)

compacted : Buffer → Buffer
compacted b = record {
  bytes = write_at b.bytes cheap_prepend (contents b);
  reader = cheap_prepend;
  writer = cheap_prepend + (b.writer - b.reader);
}

compact-eq : (b : Buffer) → IsValid b → cheap_prepend < b.reader → compact b ≡ ok (compacted b)
unfolding compact compacted readable_bytes
compact-eq b v h =
    let e : sub64 b.writer b.reader ≡ b.writer - b.reader = omega arith in
    let f : add64 8 (b.writer - b.reader) ≡ 8 + (b.writer - b.reader) = omega arith in
    rw (e, f, lt→ltb cheap_prepend b.reader h)
      (let g : sub64 (8 + (b.writer - b.reader)) 8 ≡ b.writer - b.reader = omega arith in
        rw (g, (==_iff (b.writer - b.reader) (b.writer - b.reader)).1 refl))

compacted-Holds :
    (b : Buffer) (len : ℕ)
    → IsValid b
    → cheap_prepend < b.reader
    → len + cheap_prepend ≤ writable_bytes b + b.reader
    → Holds (contents b) (compacted b) × (len ≤ writable_bytes (compacted b))
unfolding compacted
compacted-Holds b len v h enough = (record { valid = whole; held = kept }, room)
  where
    n : ℕ
    n = b.writer - b.reader

    size : length (write_at b.bytes cheap_prepend (contents b)) ≡ length b.bytes
    size = length-write_at b.bytes cheap_prepend (contents b)

    whole : IsValid (compacted b)
    whole = omega (arith, size)

    room : len ≤ writable_bytes (compacted b)
    room = omega (arith, writable_bytes_lem (compacted b) whole, writable_bytes_lem b v, size)

    moved :
        slice (write_at b.bytes cheap_prepend (contents b)) cheap_prepend (length (contents b) + 0)
        ≡ contents b ++ []
    moved =
        slice-write_at_front b.bytes (contents b) cheap_prepend 0
          (omega (arith, length-contents b v))

    kept : contents (compacted b) ≡ contents b
    kept =
        ap (slice (write_at b.bytes cheap_prepend (contents b)) cheap_prepend)
          (omega (arith, length-contents b v))
        ∙ moved
        ∙ append-nil (contents b)

-- What `EnsureWritableBytes` leaves: the bytes held, the room asked for, and a writer no further behind.
pub record Ensured (b : Buffer) (len : ℕ) (c : Buffer) : Type 0 where
  pub holds : Holds (contents b) c
  pub room : len ≤ writable_bytes c
  pub writer : c.writer ≤ b.writer

pub ensure_writable_bytes-Ensured :
    (b : Buffer) (len : ℕ)
    → IsValid b
    → b.writer + len ≤ max_size
    → Returns (ensure_writable_bytes b len) (Ensured b len)
unfolding ensure_writable_bytes make_space prependable_bytes grown compacted
ensure_writable_bytes-Ensured b len v h = elim (Bool-cases (ltb (writable_bytes b) len)) [
  | inr room ↦ rw room (record {
    holds = record { valid = v; held = refl };
    room = ground arith;
    writer = omega arith;
  })
  | inl short ↦ rw short (elim (Bool-cases large) [
    | inl more ↦
        rw (more, grow-eq b len h)
          (let g =
              grown-Holds b len v h (omega (arith, writable_bytes_lem b v, ltb→lt _ _ short)) in
            record { holds = g.0; room = g.1; writer = omega arith })
    | inr enough ↦
        rw
          (
            enough,
            compact-eq b v (omega (arith, writable_bytes_lem b v, ltb→lt _ _ short, fits enough)),
          )
          (let far : cheap_prepend < b.reader =
              omega (arith, writable_bytes_lem b v, ltb→lt _ _ short, fits enough) in
            let g = compacted-Holds b len v far (fits enough) in
            record { holds = g.0; room = g.1; writer = omega (arith, v.ordered, far) })
  ])
]
  where
    large : Bool
    large = ltb (add64 (writable_bytes b) b.reader) (add64 len cheap_prepend)

    fits : large ≡ false → len + cheap_prepend ≤ writable_bytes b + b.reader
    fits e = omega (arith, not-ltb _ _ e, writable_bytes_lem b v)

-- Where there is room in the vector for what a caller asks for, `EnsureWritableBytes` makes it: no
-- assertion of `MakeSpace` fails, and the bytes held stay what they are.
pub ensure_writable_bytes-Holds :
    (b : Buffer) (len : ℕ)
    → IsValid b
    → b.writer + len ≤ max_size
    → Returns (ensure_writable_bytes b len) (λ c. Holds (contents b) c × (len ≤ writable_bytes c))
ensure_writable_bytes-Holds b len v h =
    Returns-mono (ensure_writable_bytes b len) (Ensured b len) _
      (ensure_writable_bytes-Ensured b len v h) (λ c e. (e.holds, e.room))
