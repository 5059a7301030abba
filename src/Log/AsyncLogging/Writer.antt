-- ===== src/Log/AsyncLogging/Writer.antt =====
-- A round of the writer thread, from its critical section to the log file.
use thread_library.Prelude.{
  ℕ, zero, suc, ◌+◌, ◌≤◌, ◌<◌, ◌≡◌, refl, sym, ap, ap₂, ◌∙◌, List, [], ◌∷◌, ◌++◌, Option, none,
  some, arith, length, length-append, All, append_assoc, append-nil, ltb, false, lt→ltb, le→ltb,
  take, dec_lt,
}
use thread_library.Prelude.Outcome.{Returns, Returns->>=, Returns-mono}
use thread_library.Log.FixedBuffer.{FixedBuffer, text, reset-Holds}
use thread_library.Log.AsyncLogging.{
  Front, Back, swap_buffers, collect, max_pending, shed, write_buffers, take_back, refill,
  write_out, start_thread,
}
use thread_library.Log.AsyncLogging.Stream.{
  IsBuffer, IsSound, IsSpare, IsThere, FrontInv, texts, pending, sound, new_buffer-IsBuffer,
  texts-snoc, All-snoc,
}

-- The writer at the head of its loop.
pub record BackInv (b : Back) : Type 0 where
  pub new1 : IsThere (IsBuffer []) b.new1
  pub new2 : IsThere (IsBuffer []) b.new2
  pub nothing : b.to_write ≡ []

abbrev missing : Option FixedBuffer → ℕ
missing none = 1
missing (some _) = 0

-- The writer after its critical section.
record Collected (b : Back) : Type 0 where
  new1 : IsSpare b.new1
  new2 : IsSpare b.new2
  full : All IsSound b.to_write
  enough : missing b.new1 + missing b.new2 ≤ length b.to_write

-- All that LogFile was given, in order.
abbrev pub joined : List (List ℕ) → List ℕ
joined [] = []
joined (x ∷ xs) = x ++ joined xs

joined-snoc : (xs : List (List ℕ)) (y : List ℕ) → joined (xs ++ y ∷ []) ≡ joined xs ++ y
joined-snoc [] y = append-nil y
joined-snoc (x ∷ xs) y = ap (λ t. x ++ t) (joined-snoc xs y) ∙ sym (append_assoc x (joined xs) y)

joined-write_buffers :
    (bs : List FixedBuffer) (out : List (List ℕ))
    → joined (write_buffers bs out) ≡ joined out ++ texts bs
unfolding write_buffers texts
joined-write_buffers [] out = sym (append-nil (joined out))
joined-write_buffers (b ∷ bs) out =
    joined-write_buffers bs (out ++ text b ∷ [])
    ∙ ap (λ t. t ++ texts bs) (joined-snoc out (text b))
    ∙ append_assoc (joined out) (text b) (texts bs)

All-take : (n : ℕ) (bs : List FixedBuffer) → All IsSound bs → All IsSound (take n bs)
All-take zero bs h = tt
All-take (suc n) [] h = tt
All-take (suc n) (b ∷ bs) h = (h.0, All-take n bs h.1)

record Took (n : ℕ) (bs : List FixedBuffer) (r : FixedBuffer × List FixedBuffer) : Type 0 where
  taken : IsBuffer [] r.0
  others : All IsSound r.1
  left : length r.1 + n ≡ length bs

take_back-Took :
    (bs : List FixedBuffer) → All IsSound bs → 1 ≤ length bs → Returns (take_back bs) (Took 1 bs)
unfolding take_back
take_back-Took [] h k = absurd (omega (arith, k))
take_back-Took (b ∷ []) h k = record { taken = reset-Holds b h.0; others = tt; left = refl }
take_back-Took (b ∷ c ∷ bs) h k =
    Returns->>= (take_back (c ∷ bs)) _ (Took 1 (c ∷ bs)) (Took 1 (b ∷ c ∷ bs))
      (take_back-Took (c ∷ bs) h.1 (omega arith))
      (λ r t. record { taken = t.taken; others = (h.0, t.others); left = omega (arith, t.left) })

refill-Took :
    (o : Option FixedBuffer) (bs : List FixedBuffer)
    → IsSpare o
    → All IsSound bs
    → missing o ≤ length bs
    → Returns (refill o bs) (Took (missing o) bs)
unfolding refill
refill-Took none bs s h k = take_back-Took bs h k
refill-Took (some b) bs s h k = record { taken = s; others = h; left = omega arith }

missing_le : (o : Option FixedBuffer) → missing o ≤ 1
missing_le none = omega arith
missing_le (some _) = omega arith

length-take_two : (bs : List FixedBuffer) (n : ℕ) → n ≤ 2 → n ≤ length bs → n ≤ length (take 2 bs)
length-take_two [] n a h = h
length-take_two (_ ∷ []) n a h = h
length-take_two (_ ∷ _ ∷ _) n a h = omega arith

shed-Collected : (message : List ℕ) (b : Back) → Collected b → Collected (shed message b)
unfolding shed
shed-Collected message b c = elim (dec_lt max_pending (length b.to_write)) [
  | yes many ↦ rw (lt→ltb _ _ many) (record {
    new1 = c.new1;
    new2 = c.new2;
    full = All-take 2 b.to_write c.full;
    enough =
        length-take_two b.to_write _ (omega (arith, missing_le b.new1, missing_le b.new2)) c.enough;
  })
  | no few ↦
      (let e : ltb max_pending (length b.to_write) ≡ false = le→ltb _ _ (omega (arith, few)) in
        rw e c)
]

record Wrote (out : List (List ℕ)) (c : Back) : Type 0 where
  inv : BackInv c
  written : c.output ≡ out

write_out-Wrote :
    (message : List ℕ) (b : Back)
    → Collected b
    → let c = shed message b in
      Returns (write_out message b) (Wrote (write_buffers c.to_write c.output))
unfolding write_out
write_out-Wrote message b h =
    Returns->>= (refill c.new1 two) _ (Took (missing c.new1) two) _
      (refill-Took c.new1 two k.new1 (All-take 2 c.to_write k.full) (omega (arith, enough)))
      (λ r t.
        Returns->>= (refill c.new2 r.1) _ (Took (missing c.new2) r.1) _
          (refill-Took c.new2 r.1 k.new2 t.others (omega (arith, enough, t.left)))
          (λ s u. record {
            inv = record { new1 = t.taken; new2 = u.taken; nothing = refl };
            written = refl;
          }))
  where
    c : Back
    c = shed message b

    k : Collected c
    k = shed-Collected message b h

    two : List FixedBuffer
    two = take 2 c.to_write

    enough : missing c.new1 + missing c.new2 ≤ length two
    enough =
        length-take_two c.to_write _ (omega (arith, missing_le c.new1, missing_le c.new2)) k.enough

-- What the critical section leaves to both sides.
record Split (f : Front) (b : Back) (r : Front × Back) : Type 0 where
  front : FrontInv r.0
  back : Collected r.1
  empty : pending r.0 ≡ []
  moved : texts r.1.to_write ≡ pending f
  counted : length r.1.to_write ≡ length f.buffers + 1
  kept : r.1.output ≡ b.output

swap_buffers-Split :
    (c n : Option FixedBuffer) (bs : List FixedBuffer) (d e : FixedBuffer) (out : List (List ℕ))
    → let f : Front = record { current = c; next = n; buffers = bs } in
      let b : Back = record { new1 = some d; new2 = some e; to_write = []; output = out } in
      FrontInv f → IsBuffer [] d → IsBuffer [] e → Returns (swap_buffers c f b) (Split f b)
unfolding swap_buffers pending texts
swap_buffers-Split none n bs d e out h hd he = absurd h.current
swap_buffers-Split (some c) none [] d e out h hd he = absurd h.behind
swap_buffers-Split (some c) none (x ∷ bs) d e out h hd he = record {
  front = record { current = sound hd; next = he; full = tt; behind = tt };
  back = record {
    new1 = tt;
    new2 = tt;
    full = All-snoc (x ∷ bs) c h.full h.current;
    enough = omega (arith, length-append bs (c ∷ []));
  };
  empty = hd.held;
  moved = texts-snoc (x ∷ bs) c;
  counted = length-append (x ∷ bs) (c ∷ []);
  kept = refl;
}
swap_buffers-Split (some c) (some n) bs d e out h hd he = record {
  front = record { current = sound hd; next = h.next; full = tt; behind = tt };
  back = record {
    new1 = tt;
    new2 = he;
    full = All-snoc bs c h.full h.current;
    enough = omega (arith, length-append bs (c ∷ []));
  };
  empty = hd.held;
  moved = texts-snoc bs c;
  counted = length-append bs (c ∷ []);
  kept = refl;
}

collect-Split : (f : Front) (b : Back) → FrontInv f → BackInv b → Returns (collect f b) (Split f b)
unfolding collect
collect-Split f b h k = start f b.new1 b.new2 b.to_write b.output h k.new1 k.new2 k.nothing
  where
    start :
        (f : Front) (x y : Option FixedBuffer) (ws : List FixedBuffer) (out : List (List ℕ))
        → let b : Back = record { new1 = x; new2 = y; to_write = ws; output = out } in
          FrontInv f
          → IsThere (IsBuffer []) x
          → IsThere (IsBuffer []) y
          → ws ≡ []
          → Returns (swap_buffers f.current f b) (Split f b)
    start f none y ws out h p q e = absurd p
    start f (some d) none ws out h p q e = absurd q
    start f (some d) (some g) [] out h p q e =
        swap_buffers-Split f.current f.next f.buffers d g out h p q
    start f (some d) (some g) (w ∷ ws) out h p q e = absurd (cc e)

-- What a round leaves behind the writer.
pub record Round (f : Front) (b : Back) (c : Back) : Type 0 where
  pub inv : BackInv c
  pub all : length f.buffers < max_pending → joined c.output ≡ joined b.output ++ pending f

-- A round of the writer thread on the shared state and its own, both as the invariants say, meets no
-- failing assertion and no missing buffer; the callers find an empty shared state that keeps the
-- invariant, the writer its two buffers again, and unless there were more than 25 buffers the log has
-- grown by all that was pending, in order.
pub collect-write_out :
    (f : Front) (b : Back) (message : List ℕ)
    → FrontInv f
    → BackInv b
    → Returns
        (collect f b)
        λ r. FrontInv r.0 × (pending r.0 ≡ []) × Returns (write_out message r.1) (Round f b)
unfolding shed
collect-write_out f b message h k =
    Returns-mono (collect f b) (Split f b) _ (collect-Split f b h k) λ r s. (
      s.front,
      s.empty,
      Returns-mono (write_out message r.1) _ (Round f b) (write_out-Wrote message r.1 s.back)
          λ c w. record { inv = w.inv; all = λ few. ap joined w.written ∙ whole r.1 s few },
    )
  where
    whole :
        {g : Front} (c : Back) (s : Split f b (g, c))
        → length f.buffers < max_pending
        → joined (write_buffers (shed message c).to_write (shed message c).output)
          ≡ joined b.output ++ pending f
    whole c s few =
        let e : ltb max_pending (length c.to_write) ≡ false =
          le→ltb _ _ (omega (arith, s.counted, few)) in
        rw e (joined-write_buffers c.to_write c.output ∙ ap₂ (λ o t. joined o ++ t) s.kept s.moved)

pub start_thread-BackInv : BackInv start_thread
unfolding start_thread
start_thread-BackInv = record {
  new1 = new_buffer-IsBuffer;
  new2 = new_buffer-IsBuffer;
  nothing = refl;
}
