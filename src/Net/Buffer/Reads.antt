-- ===== src/Net/Buffer/Reads.antt =====
-- The reading side of a Buffer, the integers in network order, and `ReadFd`.
use thread_library.Prelude.{
  ℕ, ◌+◌, ◌-◌, ◌^◌, ◌≤◌, ◌<◌, ◌≡◌, refl, sym, ap, ◌∙◌, inl, inr, List, [], ◌++◌, arith, length,
  slice, take, drop, write_at, leb, reverse, length-drop, Bool-cases, true, false, append-nil,
  append_assoc, lt→ltb, le→ltb, length-append, some, take-append-drop, length-take_of_le,
  drop-append_left, take-append_left, drop_all, take_all, drop-nil, subst,
}
use thread_library.Prelude.Slices.{slice-take}
use thread_library.Prelude.Outcome.{ok, fatal, Returns, Returns->>=, Returns-mono}
use thread_library.Prelude.Words.{add64, sub64}
use thread_library.Net.Endian.{
  to_memory, of_memory, network_to_host, to_memory-host_to_network, length-to_memory,
  length-reverse, network_to_host-of_memory,
}
use thread_library.Net.Buffer.{
  Buffer, max_size, extra_size, readable_bytes, writable_bytes, retrieve_all, retrieve,
  retrieve_until, retrieve_as_string, retrieve_all_as_string, unwrite, append, prepend, read_room,
  got,
}
use thread_library.Net.Buffer.Integers.{append_int, prepend_int, peek_int, read_fd}
use thread_library.Net.Buffer.Contents.{
  IsValid, contents, Holds, readable_bytes_lem, writable_bytes_lem, length-contents,
}
use thread_library.Net.Buffer.Fifo.{
  append-Holds, prepend-Holds, retrieve-Holds, retrieve_all-Holds, written, written-Holds,
}

leb→le : (a b : ℕ) → leb a b ≡ true → a ≤ b
leb→le a b h = ground arith

not-leb : (a b : ℕ) → leb a b ≡ false → b < a
not-leb a b h = ground arith

-- `RetrieveUntil` takes the bytes before a position away, wherever that position lies.
retrieve_until-Holds :
    (b : Buffer) (end : ℕ)
    → IsValid b
    → end < 2 ^ 64
    → Holds (drop (end - b.reader) (contents b)) (retrieve_until b end)
unfolding retrieve_until
retrieve_until-Holds b end v small = elim (Bool-cases (leb end b.reader)) [
  | inl before ↦
      rw before (record { valid = v; held = sym (ap (λ k. drop k (contents b)) (early before)) })
  | inr after ↦ rw after (elim (Bool-cases (leb b.writer end)) [
    | inl past ↦ rw (past, gone past) (emptied (retrieve_all b) _ (retrieve_all-Holds b v))
    | inr inside ↦ rw (inside, distance after) (retrieve-Holds b (end - b.reader) v)
  ])
]
  where
    early : leb end b.reader ≡ true → end - b.reader ≡ 0
    early e = omega (arith, leb→le _ _ e)

    gone : leb b.writer end ≡ true → drop (end - b.reader) (contents b) ≡ []
    gone e = drop_all _ (contents b) (omega (arith, leb→le _ _ e, length-contents b v))

    distance : leb end b.reader ≡ false → sub64 end b.reader ≡ end - b.reader
    distance e = omega (arith, not-leb _ _ e)

    emptied : (c : Buffer) (n : ℕ) → Holds [] c → Holds [] (retrieve c n)
    emptied c n h = record {
      valid = (retrieve-Holds c n h.valid).valid;
      held = (retrieve-Holds c n h.valid).held ∙ ap (drop n) h.held ∙ drop-nil n;
    }

-- `RetrieveAsString` returns the first bytes held, at most all of them, and takes them away.
pub retrieve_as_string_lem :
    (b : Buffer) (len : ℕ)
    → IsValid b
    → let (c, s) = retrieve_as_string b len in
      (s ≡ take len (contents b)) × Holds (drop len (contents b)) c
unfolding retrieve_as_string
retrieve_as_string_lem b len v = (
  elim (Bool-cases (leb (readable_bytes b) len)) [
    | inl all ↦
        rw (all, readable_bytes_lem b v)
          (sym (
            take_all len (contents b)
              (omega (arith, leb→le _ _ all, readable_bytes_lem b v, length-contents b v))))
    | inr part ↦ rw part (
        slice-take b.bytes b.reader len (b.writer - b.reader)
          (omega (arith, not-leb _ _ part, readable_bytes_lem b v)))
  ],
  retrieve-Holds b len v,
)

-- `RetrieveAllAsString` returns every byte held and leaves none.
pub retrieve_all_as_string_lem :
    (b : Buffer)
    → IsValid b
    → let (c, s) = retrieve_all_as_string b in (s ≡ contents b) × Holds [] c
unfolding retrieve_all_as_string
retrieve_all_as_string_lem b v =
    let n = readable_bytes b in
    let p = retrieve_as_string_lem b n v in
    let whole : length (contents b) ≤ n =
      omega (arith, readable_bytes_lem b v, length-contents b v) in
    (
      p.0 ∙ take_all n (contents b) whole,
      subst (λ xs. Holds xs (retrieve_as_string b n).0) (drop_all n (contents b) whole) p.1,
    )

-- `Unwrite` takes the last bytes away, and aborts if so many are not held.
pub unwrite_lem :
    (b : Buffer) (len : ℕ)
    → IsValid b
    → (len ≤ length (contents b)
        → Returns (unwrite b len) (Holds (take (length (contents b) - len) (contents b))))
      × (length (contents b) < len → unwrite b len ≡ fatal)
unfolding unwrite
unwrite_lem b len v = (
  λ h. rw (le→ltb _ _ (held h)) (record { valid = whole h; held = kept h }),
  λ h. rw (
      lt→ltb _ _
        (let k : readable_bytes b < len = omega (arith, n, h, readable_bytes_lem b v) in k)),
)
  where
    n : length (contents b) ≡ b.writer - b.reader
    n = length-contents b v

    held : len ≤ length (contents b) → len ≤ readable_bytes b
    held h = omega (arith, n, h, readable_bytes_lem b v)

    whole : len ≤ length (contents b) → IsValid (record b { writer = sub64 b.writer len })
    whole h = omega (arith, n, h)

    kept :
        len ≤ length (contents b)
        → slice b.bytes b.reader (sub64 b.writer len - b.reader)
          ≡ take (length (contents b) - len) (contents b)
    kept h =
        ap (slice b.bytes b.reader) (
          let e : sub64 b.writer len - b.reader ≡ length (contents b) - len = omega (arith, n, h) in
          e)
        ∙ slice-take b.bytes b.reader (length (contents b) - len) (b.writer - b.reader)
            (omega (arith, n))

-- The bytes of an integer as they go over the network: highest first.
abbrev network : ℕ → ℕ → List ℕ
network w v = reverse (to_memory w v)

length-network : (w v : ℕ) → length (network w v) ≡ w
length-network w v = omega (arith, length-reverse (to_memory w v), length-to_memory w v)

-- What `PeekInt` and the retrieval behind it make of an integer at the front.
front_int :
    (w v : ℕ) (rest : List ℕ) (c : Buffer)
    → v < 256 ^ w
    → Holds (network w v ++ rest) c
    → (peek_int w c ≡ ok v) × Holds rest (retrieve c w)
unfolding peek_int
front_int w v rest c small h = (
  rw (le→ltb _ _ enough) (ap ok value),
  subst (λ xs. Holds xs (retrieve c w)) behind (retrieve-Holds c w h.valid),
)
  where
    size : length (network w v) ≡ w
    size = length-network w v

    enough : w ≤ readable_bytes c
    enough = omega (
      arith,
      readable_bytes_lem c h.valid,
      length-contents c h.valid,
      ap length h.held,
      length-append (network w v) rest,
      size,
    )

    front : slice c.bytes c.reader w ≡ network w v
    front =
        slice-take c.bytes c.reader w (c.writer - c.reader)
          (omega (arith, enough, readable_bytes_lem c h.valid))
        ∙ ap (take w) h.held
        ∙ ap (λ k. take k (network w v ++ rest)) (sym size)
        ∙ take-append_left (network w v) rest

    behind : drop w (contents c) ≡ rest
    behind =
        ap (drop w) h.held
        ∙ ap (λ k. drop k (network w v ++ rest)) (sym size)
        ∙ drop-append_left (network w v) rest

    value : network_to_host w (of_memory (slice c.bytes c.reader w)) ≡ v
    value = ap (λ bs. network_to_host w (of_memory bs)) front ∙ network_to_host-of_memory w v small

-- An integer that is prepended is what the next read returns, and the read leaves the bytes that were
-- held before.
peek_int-prepend_int :
    (w v : ℕ) (b : Buffer)
    → IsValid b
    → w ≤ b.reader
    → v < 256 ^ w
    → Returns (prepend_int w b v) (λ c. (peek_int w c ≡ ok v) × Holds (contents b) (retrieve c w))
unfolding prepend_int
peek_int-prepend_int w v b valid room small = rw (to_memory-host_to_network w v) (
    Returns-mono (prepend b (network w v)) _ _
      ((prepend-Holds b (network w v) valid).0 (omega (arith, length-network w v, room)))
      (λ c h. front_int w v (contents b) c small h))

-- An integer that is appended to an empty buffer is what the next read returns, and the read empties
-- the buffer again.
pub peek_int-append_int :
    (w v : ℕ) (b : Buffer)
    → IsValid b
    → contents b ≡ []
    → b.writer + w ≤ max_size
    → v < 256 ^ w
    → Returns (append_int w b v) (λ c. (peek_int w c ≡ ok v) × Holds [] (retrieve c w))
unfolding append_int
peek_int-append_int w v b valid empty room small = rw (to_memory-host_to_network w v) (
    Returns-mono (append b (network w v)) _ _
      (append-Holds b (network w v) valid (omega (arith, length-network w v, room)))
      (λ c h. front_int w v [] c small (
        subst (λ xs. Holds xs c)
          (ap (λ xs. xs ++ network w v) empty ∙ sym (append-nil (network w v))) h)))

-- `ReadFd` puts what `readv` read behind the bytes held, whether it fits in the writable bytes or runs
-- into `extrabuf`, reads no further than `extrabuf` reaches, and returns the count.
pub read_fd-Holds :
    (b : Buffer) (ds : List ℕ)
    → IsValid b
    → length b.bytes + extra_size ≤ max_size
    → length ds ≤ read_room b
    → Returns (read_fd b (got ds)) (λ r. (r.0 ≡ some (length ds)) × Holds (contents b ++ ds) r.1)
      × (length ds - writable_bytes b ≤ extra_size)
unfolding read_fd read_room written
read_fd-Holds b ds v h room = (
  elim (Bool-cases (leb n w)) [
    | inl fits ↦ rw fits (refl, within (leb→le _ _ fits))
    | inr spills ↦ rw spills (
        Returns->>= (append full (drop w ds)) _ (Holds (contents b ++ ds)) _
          (over (not-leb _ _ spills)) (λ c k. (refl, k)))
  ],
  extra,
)
  where
    n : ℕ
    n = length ds

    w : ℕ
    w = writable_bytes b

    left : w ≡ length b.bytes - b.writer
    left = writable_bytes_lem b v

    extra : n - w ≤ extra_size
    extra = ground arith

    full : Buffer
    full = record b { bytes = write_at b.bytes b.writer (take w ds); writer = length b.bytes }

    within :
        n ≤ w
        → Holds
            (contents b ++ ds)
            (record b { bytes = write_at b.bytes b.writer (take w ds); writer = add64 b.writer n })
    within k =
        rw
          (take_all w ds k, (let e : add64 b.writer n ≡ b.writer + n = omega (arith, left, k) in e))
          (written-Holds b ds v (omega (arith, left, k)))

    filled : w < n → Holds (contents b ++ take w ds) full
    filled k =
        let size : length (take w ds) ≡ w = length-take_of_le w ds (omega arith) in
        let stop : b.writer + length (take w ds) ≡ length b.bytes = omega (arith, size, left) in
        subst
          (λ m.
            Holds (contents b ++ take w ds)
              (record b { bytes = write_at b.bytes b.writer (take w ds); writer = m }))
          stop (written-Holds b (take w ds) v (omega (arith, size, left)))

    over : w < n → Returns (append full (drop w ds)) (Holds (contents b ++ ds))
    over k =
        subst (λ xs. Returns (append full (drop w ds)) (Holds xs))
          (ap (λ xs. xs ++ drop w ds) (filled k).held
            ∙ append_assoc (contents b) (take w ds) (drop w ds)
            ∙ ap (λ xs. contents b ++ xs) (take-append-drop w ds))
          (append-Holds full (drop w ds) (filled k).valid (omega (arith, length-drop w ds, extra)))
