-- ===== src/Log/AsyncLogging/Stream.antt =====
-- The state that callers of `Append` share: its invariant, and what is pending in it.
use thread_library.Prelude.{
  ℕ, ◌<◌, ◌≡◌, refl, sym, ap, ap₂, ◌∙◌, subst, List, [], ◌∷◌, ◌++◌, Option, none, some, arith,
  length, All, append_assoc, append-nil, ltb, lt→ltb, le→ltb, dec_lt, false, length-take_of_le,
}
use thread_library.Prelude.Outcome.{Returns}
use thread_library.Log.FixedBuffer.{
  FixedBuffer, left_size, append, text, Holds, append_lem, create-Holds,
}
use thread_library.Log.AsyncLogging.{
  large_buffer, new_buffer, Front, create, take_next, append_to, append_line,
}

-- A buffer of the right size that holds `xs`.
abbrev pub IsBuffer : List ℕ → FixedBuffer → Type 0
IsBuffer = Holds large_buffer

abbrev pub IsSound : FixedBuffer → Type 0
IsSound b = IsBuffer (text b) b

-- An optional buffer that, if it is there, is empty.
abbrev pub IsSpare : Option FixedBuffer → Type 0
IsSpare none = Unit
IsSpare (some b) = IsBuffer [] b

abbrev pub IsThere : (FixedBuffer → Type 0) → Option FixedBuffer → Type 0
IsThere P none = ⊥
IsThere P (some b) = P b

-- Without a next buffer there is a full one.
abbrev HasFull : Option FixedBuffer → List FixedBuffer → Type 0
HasFull none [] = ⊥
HasFull _ _ = Unit

pub record FrontInv (f : Front) : Type 0 where
  pub current : IsThere IsSound f.current
  pub next : IsSpare f.next
  pub full : All IsSound f.buffers
  pub behind : HasFull f.next f.buffers

unfoldable pub texts : List FixedBuffer → List ℕ
texts [] = []
texts (b ∷ bs) = text b ++ texts bs

abbrev text? : Option FixedBuffer → List ℕ
text? none = []
text? (some b) = text b

-- The bytes that callers have logged and that wait for the writer.
unfoldable pub pending : Front → List ℕ
unfolding texts
pending f = texts f.buffers ++ text? f.current

texts-append : (xs ys : List FixedBuffer) → texts (xs ++ ys) ≡ texts xs ++ texts ys
unfolding texts
texts-append [] ys = refl
texts-append (x ∷ xs) ys =
    ap (λ t. text x ++ t) (texts-append xs ys) ∙ sym (append_assoc (text x) (texts xs) (texts ys))

pub texts-snoc :
    (bs : List FixedBuffer) (b : FixedBuffer) → texts (bs ++ b ∷ []) ≡ texts bs ++ text b
unfolding texts
texts-snoc bs b = texts-append bs (b ∷ []) ∙ ap (λ t. texts bs ++ t) (append-nil (text b))

pub All-snoc :
    (bs : List FixedBuffer) (b : FixedBuffer)
    → All IsSound bs
    → IsSound b
    → All IsSound (bs ++ b ∷ [])
All-snoc [] b h k = (k, tt)
All-snoc (x ∷ bs) b h k = (h.0, All-snoc bs b h.1 k)

pub new_buffer-IsBuffer : IsBuffer [] new_buffer
unfolding new_buffer
new_buffer-IsBuffer = create-Holds large_buffer

take_next-IsBuffer : (o : Option FixedBuffer) → IsSpare o → IsBuffer [] (take_next o)
take_next-IsBuffer none h = new_buffer-IsBuffer
take_next-IsBuffer (some b) h = h

pub sound : {b : FixedBuffer} {xs : List ℕ} → IsBuffer xs b → IsSound b
sound h = record { valid = h.valid; held = refl; sized = h.sized }

-- A line shorter than the room goes behind the text.
fits :
    (b : FixedBuffer) (line : List ℕ)
    → IsSound b
    → length line < left_size b
    → IsBuffer (text b ++ line) (append b line)
fits b line h lt =
    subst (λ n. Holds n (text b ++ line) (append b line)) h.sized ((append_lem b line h.valid).0 lt)

-- An empty buffer takes any line shorter than itself.
fresh :
    (b : FixedBuffer) (line : List ℕ)
    → IsBuffer [] b
    → length line < large_buffer
    → IsBuffer line (append b line)
unfolding left_size
fresh b line h lt =
    subst (λ t. IsBuffer (t ++ line) (append b line)) h.held
      (fits b line (sound h) (omega (arith, room)))
  where
    room : left_size b ≡ large_buffer
    room = omega (arith, h.sized, ap length h.held, length-take_of_le b.current b.bytes h.valid)

-- What `Append` leaves: the invariant, and the line behind what was pending.
pub record Logged (f : Front) (line : List ℕ) (g : Front) : Type 0 where
  pub inv : FrontInv g
  pub all : pending g ≡ pending f ++ line

HasFull-snoc :
    (o : Option FixedBuffer) (bs : List FixedBuffer) (b : FixedBuffer) → HasFull o (bs ++ b ∷ [])
HasFull-snoc none [] b = tt
HasFull-snoc none (x ∷ bs) b = tt
HasFull-snoc (some _) bs b = tt

append_to-Logged :
    (c n : Option FixedBuffer) (bs : List FixedBuffer) (line : List ℕ)
    → let f : Front = record { current = c; next = n; buffers = bs } in
      FrontInv f → length line < large_buffer → Returns (append_to c line f) (Logged f line)
unfolding append_to pending
append_to-Logged none n bs line h lt = absurd h.current
append_to-Logged (some b) n bs line h lt = elim (dec_lt (length line) (left_size b)) [
  | yes room ↦
      (let a = fits b line h.current room in
        rw (lt→ltb _ _ room) (record {
          inv = record { current = sound a; next = h.next; full = h.full; behind = h.behind };
          all = ap (λ t. texts bs ++ t) a.held ∙ sym (append_assoc (texts bs) (text b) line);
        }))
  | no narrow ↦
      (let a = fresh (take_next n) line (take_next-IsBuffer n h.next) lt in
        let full : ltb (length line) (left_size b) ≡ false = le→ltb _ _ (omega (arith, narrow)) in
        rw full (record {
          inv = record {
            current = sound a;
            next = tt;
            full = All-snoc bs b h.full h.current;
            behind = HasFull-snoc none bs b;
          };
          all = ap₂ (λ s t. s ++ t) (texts-snoc bs b) a.held;
        }))
]

-- `Append` of a line shorter than a buffer returns, keeps the invariant of the shared state, and puts the
-- whole line behind all that is pending.
pub append_line-Logged :
    (f : Front) (line : List ℕ)
    → FrontInv f
    → length line < large_buffer
    → Returns (append_line line f) (Logged f line)
unfolding append_line
append_line-Logged f line h lt = append_to-Logged f.current f.next f.buffers line h lt

pub create-FrontInv : FrontInv create
unfolding create
create-FrontInv = record {
  current = sound new_buffer-IsBuffer;
  next = new_buffer-IsBuffer;
  full = tt;
  behind = tt;
}
