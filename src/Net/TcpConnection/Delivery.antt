-- ===== src/Net/TcpConnection/Delivery.antt =====
-- `HandleWrite` again and again, as the socket takes what a connection holds.
use thread_library.Prelude.{
  ℕ, ◌+◌, ◌-◌, ◌≤◌, ◌<◌, ◌≡◌, refl, sym, ap, ◌∙◌, subst, inl, inr, Bool, true, false, List, [], ◌∷◌,
  arith, length, drop, ltb, ◌==◌, if◌then◌else◌, Bool-cases, lt→ltb, le→ltb, take, ==_iff,
  length-drop, drop-drop,
}
use thread_library.Prelude.Outcome.{
  Outcome, ok, Returns, Returns->>=, Returns-mono, Returns-both, ◌>>=◌,
}
use thread_library.Net.Buffer.{readable_bytes, retrieve, retrieve_all_as_string}
use thread_library.Net.Buffer.Contents.{
  IsValid, contents, Holds, readable_bytes_lem, length-contents,
}
use thread_library.Net.Buffer.Fifo.{retrieve-Holds}
use thread_library.Net.Channel.{is_writing, enable_writing}
use thread_library.Net.Channel.Events.{IsInterested, queries, writing, apply, switch_queries}
use thread_library.Net.TcpConnection.{
  disconnecting, same_status, called_write_complete, Connection, wrote, sent, emit, emit_if, switch,
  drained, write_some, write_result, handle_write, shutdown_in_loop,
}
use thread_library.Net.TcpConnection.Stream.{stream, emit_if-output, emit_if-channel}
use thread_library.Net.TcpConnection.Write.{handle_write-Streams}

-- `pending` is held, and the channel waits for room exactly if that is something.
pub record Left (xs pending : List ℕ) (r : Bool) (c : Connection) : Type 0 where
  pub valid : IsValid c.output
  pub all : stream c ≡ xs
  pub held : contents c.output ≡ pending
  pub watch : IsInterested r (ltb 0 (length pending)) c.channel

-- Calls of `HandleWrite` with these answers of write(2).
unfoldable pub write_all : List ℕ → Connection → Outcome Connection
unfolding handle_write
write_all [] c = ok c
write_all (n ∷ ns) c = handle_write true (wrote n) c >>= write_all ns

abbrev sum : List ℕ → ℕ
sum [] = 0
sum (n ∷ ns) = n + sum ns

-- Each of the counts is one that write(2) can answer where so many bytes are pending.
abbrev Fits : List ℕ → ℕ → Type 0
Fits [] l = Unit
Fits (n ∷ ns) l = (0 < n) × (n ≤ l) × Fits ns (l - n)

-- What is held, and for what the channel waits.
abbrev Kept : List ℕ → Bool → Bool → Connection → Type 0
Kept pending r w c = (contents c.output ≡ pending) × IsInterested r w c.channel

shutdown-Kept :
    (b : Bool) (p : List ℕ) (r w : Bool) (d : Connection)
    → Kept p r w d
    → Returns (if b then shutdown_in_loop true d else ok d) (Kept p r w)
unfolding shutdown_in_loop
shutdown-Kept false p r w d k = k
shutdown-Kept true p r w d k = elim (Bool-cases (is_writing d.channel)) [
  | inl h ↦ rw h k
  | inr h ↦ rw h k
]

drained-Kept :
    (c : Connection) (r : Bool)
    → IsInterested r true c.channel
    → Returns (drained c) (Kept (contents c.output) r false)
unfolding drained apply
drained-Kept c r h =
    let off = switch (enable_writing false c.channel) c in
    let d = emit_if c.handlers.has_write_complete called_write_complete off in
    shutdown-Kept (same_status d.status disconnecting) (contents c.output) r false d (
      ap contents (emit_if-output c.handlers.has_write_complete called_write_complete off),
      ap (λ k. k.interested)
            (emit_if-channel c.handlers.has_write_complete called_write_complete off)
          ∙ (switch_queries c.channel r true (writing false) h).0,
    )

-- Behind the write.
abbrev after : Connection → ℕ → Connection
after c n = record (emit (sent (take n (retrieve_all_as_string c.output).1)) c) {
  output = retrieve c.output n;
}

nonzero : (n : ℕ) → (n == 0) ≡ false → 0 < n
nonzero n h = ground arith

handle_write-Kept :
    (c : Connection) (n : ℕ) (r : Bool)
    → IsValid c.output
    → IsInterested r true c.channel
    → 0 < n
    → n ≤ length (contents c.output)
    → let p = drop n (contents c.output) in
      Returns (handle_write true (wrote n) c) (Kept p r (ltb 0 (length p)))
unfolding handle_write write_result write_some
handle_write-Kept c n r v h some_written le =
    let p = drop n (contents c.output) in
    let rest = retrieve c.output n in
    let k : Holds p rest = retrieve-Holds c.output n v in
    let left : readable_bytes rest ≡ length p =
      omega
        (arith, readable_bytes_lem rest k.valid, length-contents rest k.valid, ap length k.held) in
    rw ((queries c.channel r true h).1, lt→ltb 0 n some_written)
      (elim (Bool-cases (readable_bytes rest == 0)) [
        | inl empty ↦
            (let none_left : ltb 0 (length p) ≡ false =
                le→ltb _ _ (omega (arith, left, (==_iff _ _).0 empty)) in
              rw (empty, none_left)
                (subst (λ q. Returns (drained (after c n)) (Kept q r false)) k.held
                  (drained-Kept (after c n) r h)))
        | inr more ↦
            (let some_left : ltb 0 (length p) ≡ true =
                lt→ltb _ _ (omega (arith, left, nonzero (readable_bytes rest) more)) in
              rw (more, some_left) (k.held, h))
      ])

handle_write-Left :
    (c : Connection) (n : ℕ) (r : Bool) (xs p : List ℕ)
    → Left xs p r c
    → 0 < n
    → n ≤ length p
    → Returns (handle_write true (wrote n) c) (Left xs (drop n p) r)
handle_write-Left c n r xs p l some_written le =
    let le' : n ≤ length (contents c.output) = subst (λ q. n ≤ length q) (sym l.held) le in
    let waits : IsInterested r true c.channel =
      subst (λ b. IsInterested r b c.channel)
        (lt→ltb 0 (length p) (omega (arith, some_written, le))) l.watch in
    Returns-mono (handle_write true (wrote n) c) _ _
      (Returns-both (handle_write true (wrote n) c) _ _
        (handle_write-Streams c n r l.valid waits some_written le')
        (handle_write-Kept c n r l.valid waits some_written le'))
      (λ d k. record {
        valid = k.0.valid;
        all = k.0.all ∙ l.all;
        held = k.1.0 ∙ ap (drop n) l.held;
        watch = subst (λ q. IsInterested r (ltb 0 (length (drop n q))) d.channel) l.held k.1.1;
      })

write_all-Left :
    (ns : List ℕ) (c : Connection) (r : Bool) (xs p : List ℕ)
    → Left xs p r c
    → Fits ns (length p)
    → Returns (write_all ns c) (Left xs (drop (sum ns) p) r)
unfolding write_all
write_all-Left [] c r xs p l f = l
write_all-Left (n ∷ ns) c r xs p l (some_written, le, f) =
    Returns->>= (handle_write true (wrote n) c) (write_all ns) _ _
      (handle_write-Left c n r xs p l some_written le)
      (λ d k.
        subst (λ q. Returns (write_all ns d) (Left xs q r)) (drop-drop n (sum ns) p)
          (write_all-Left ns d r xs (drop n p) k (subst (Fits ns) (sym (length-drop n p)) f)))

-- What a connection holds is delivered: as often as the socket takes something of it, in the loop's thread,
-- `HandleWrite` returns, no byte is lost or out of order, what was not taken is held, and the channel waits
-- for room exactly if that is something.
pub write_all-Delivers :
    (c : Connection) (ns : List ℕ) (r : Bool)
    → IsValid c.output
    → IsInterested r (ltb 0 (length (contents c.output))) c.channel
    → Fits ns (length (contents c.output))
    → Returns (write_all ns c) (Left (stream c) (drop (sum ns) (contents c.output)) r)
write_all-Delivers c ns r v h f =
    write_all-Left ns c r (stream c) (contents c.output)
      (record { valid = v; all = refl; held = refl; watch = h }) f
