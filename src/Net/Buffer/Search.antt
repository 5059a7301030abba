-- ===== src/Net/Buffer/Search.antt =====
-- `FindEOL` and `FindCRLF`: the first end of line among the bytes held.
use thread_library.Prelude.{
  ℕ, ◌+◌, ◌≤◌, ◌≡◌, ◌≢◌, refl, sym, ap, ◌∙◌, ◌⊎◌, inl, inr, List, [], ◌∷◌, ◌++◌, none, some,
  Bool-cases, ◌&&◌, arith, length, length-append, All, ◌==◌, slice, subst,
}
use thread_library.Net.Buffer.{Buffer, find_byte, search_crlf, find_eol, find_crlf}
use thread_library.Net.Buffer.Contents.{IsValid, contents, readable_bytes_lem, length-contents}

find_byte-append :
    (c i : ℕ) (line rest : List ℕ)
    → All (λ x. x ≢ c) line
    → find_byte c i (line ++ c ∷ rest) ≡ some (i + length line)
unfolding find_byte
find_byte-append c i [] rest h = ground arith
find_byte-append c i (x ∷ line) rest h =
    ground (arith, find_byte-append c (i + 1) line rest h.1, h.0)

find_byte-none : (c i : ℕ) (xs : List ℕ) → All (λ x. x ≢ c) xs → find_byte c i xs ≡ none
unfolding find_byte
find_byte-none c i [] h = refl
find_byte-none c i (x ∷ xs) h = ground (arith, find_byte-none c (i + 1) xs h.1, h.0)

-- `FindEOL` finds the first newline held, and nothing if none is held.
find_eol_lem :
    (b : Buffer)
    → IsValid b
    → ((line rest : List ℕ)
        → contents b ≡ line ++ b'\n' ∷ rest
        → All (λ x. x ≢ b'\n') line
        → find_eol b ≡ some (b.reader + length line))
      × (All (λ x. x ≢ b'\n') (contents b) → find_eol b ≡ none)
unfolding find_eol
find_eol_lem b v = (
  λ line rest e h.
      held ∙ ap (find_byte b'\n' b.reader) e ∙ find_byte-append b'\n' b.reader line rest h,
  λ h. held ∙ find_byte-none b'\n' b.reader (contents b) h,
)
  where
    held : find_eol b ≡ find_byte b'\n' b.reader (contents b)
    held = ap (λ n. find_byte b'\n' b.reader (slice b.bytes b.reader n)) (readable_bytes_lem b v)

search_crlf-le :
    (i : ℕ) (line rest : List ℕ) → search_crlf i (line ++ b'\r' ∷ b'\n' ∷ rest) ≤ i + length line
unfolding search_crlf
search_crlf-le i [] rest = ground arith
search_crlf-le i (x ∷ []) rest = ground (arith, search_crlf-le (i + 1) [] rest)
search_crlf-le i (x ∷ y ∷ line) rest = ground (arith, search_crlf-le (i + 1) (y ∷ line) rest)

-- What a position that the search returns says of the bytes.
abbrev pub Found : ℕ → List ℕ → ℕ → Type 0
Found i xs k =
    (line : List ℕ) × (rest : List ℕ) × (xs ≡ line ++ b'\r' ∷ b'\n' ∷ rest) × (k ≡ i + length line)

Found-suc : (i k x : ℕ) (xs : List ℕ) → Found (i + 1) xs k → Found i (x ∷ xs) k
Found-suc i k x xs (line, rest, e, n) = (x ∷ line, rest, ap (λ t. x ∷ t) e, omega arith)

search_crlf-Found :
    (i : ℕ) (xs : List ℕ) → (search_crlf i xs ≡ i + length xs) ⊎ Found i xs (search_crlf i xs)
unfolding search_crlf
search_crlf-Found i [] = inl (omega arith)
search_crlf-Found i (x ∷ []) = inl (omega arith)
search_crlf-Found i (x ∷ y ∷ xs) = elim (Bool-cases (x == b'\r' && y == b'\n')) [
  | inl hit ↦ rw hit (inr ([], xs, ground (arith, hit), omega arith))
  | inr miss ↦ rw miss (elim (search_crlf-Found (i + 1) (y ∷ xs)) [
    | inl e ↦ inl (omega (arith, e))
    | inr f ↦ inr (Found-suc i (search_crlf (i + 1) (y ∷ xs)) x (y ∷ xs) f)
  ])
]

-- `FindCRLF` finds the first "\r\n" held: a position that it returns splits the bytes held there, every
-- other split lies no earlier, and it returns none only if there is no split.
pub find_crlf_lem :
    (b : Buffer)
    → IsValid b
    → ((i : ℕ) → find_crlf b ≡ some i → Found b.reader (contents b) i)
      × ((line rest : List ℕ)
          → contents b ≡ line ++ b'\r' ∷ b'\n' ∷ rest
          → (i : ℕ) × (find_crlf b ≡ some i) × (i ≤ b.reader + length line))
unfolding find_crlf
find_crlf_lem b v = (sound, complete)
  where
    k : ℕ
    k = search_crlf b.reader (contents b)

    stop : b.writer ≡ b.reader + length (contents b)
    stop = omega (arith, length-contents b v)

    sound : (i : ℕ) → find_crlf b ≡ some i → Found b.reader (contents b) i
    sound i e = elim (search_crlf-Found b.reader (contents b)) [
      | inl past ↦ absurd (ground (arith, past, stop, e))
      | inr (line, rest, split, n) ↦ (line, rest, split, ground (arith, n, e))
    ]

    complete :
        (line rest : List ℕ)
        → contents b ≡ line ++ b'\r' ∷ b'\n' ∷ rest
        → (i : ℕ) × (find_crlf b ≡ some i) × (i ≤ b.reader + length line)
    complete line rest e = (k, ground (arith, near, stop, size), near)
      where
        near : k ≤ b.reader + length line
        near =
            subst (λ xs. search_crlf b.reader xs ≤ b.reader + length line) (sym e)
              (search_crlf-le b.reader line rest)

        size : length (contents b) ≡ length line + 2 + length rest
        size = omega (arith, ap length e, length-append line (b'\r' ∷ b'\n' ∷ rest))
