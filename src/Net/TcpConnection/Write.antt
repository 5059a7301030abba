-- ===== src/Net/TcpConnection/Write.antt =====
-- `HandleWrite`: what becomes of the bytes that a connection holds.
use thread_library.Prelude.{
  ℕ, ◌-◌, ◌≤◌, ◌<◌, ◌≡◌, refl, ap, ap₂, ◌∙◌, subst, inl, inr, Bool, true, false, ◌++◌, arith,
  length, take, drop, ltb, ◌==◌, if◌then◌else◌, Bool-cases, lt→ltb, le→ltb, ==_iff, append_assoc,
  take-append-drop, length-drop,
}
use thread_library.Prelude.Outcome.{ok, Returns}
use thread_library.Net.Buffer.{Buffer, readable_bytes, retrieve}
use thread_library.Net.Buffer.Contents.{
  IsValid, contents, Holds, readable_bytes_lem, length-contents,
}
use thread_library.Net.Buffer.Fifo.{retrieve-Holds}
use thread_library.Net.Buffer.Reads.{retrieve_all_as_string_lem}
use thread_library.Net.Channel.{is_writing, enable_writing}
use thread_library.Net.Channel.Events.{IsInterested, queries}
use thread_library.Net.TcpConnection.{
  disconnecting, same_status, sent, shut_down_write, called_write_complete, Connection, wrote, emit,
  emit_if, switch, drained, write_some, write_result, handle_write, shutdown_in_loop,
}
use thread_library.Net.TcpConnection.Stream.{
  written, stream, written-quiet, written-sent, Streams, enable_writing-queries,
}

-- The flags of the channel that a drained connection leaves.
drained-Streams :
    (c : Connection) (r w : Bool)
    → IsValid c.output
    → IsInterested r w c.channel
    → Returns (drained c) (Streams (stream c) false)
unfolding drained shutdown_in_loop written
drained-Streams c r w v h = told c.handlers.has_write_complete
  where
    off : Connection
    off = switch (enable_writing false c.channel) c

    still : is_writing (enable_writing false c.channel) ≡ false
    still = enable_writing-queries c.channel r w false h

    finish :
        (d : Connection)
        → Streams (stream c) false d
        → Returns
            (if same_status d.status disconnecting then shutdown_in_loop true d else ok d)
            (Streams (stream c) false)
    finish d s = elim (Bool-cases (same_status d.status disconnecting)) [
      | inr stays ↦ rw stays s
      | inl leaves ↦
          rw (leaves, shutdown_in_loop, s.writes)
            (record {
              valid = s.valid;
              all =
                  ap (λ t. t ++ contents d.output) (written-quiet d.trace shut_down_write refl)
                  ∙ s.all;
              writes = s.writes;
            })
    ]

    told :
        (b : Bool)
        → Returns
            (if same_status (emit_if b called_write_complete off).status disconnecting
              then shutdown_in_loop true (emit_if b called_write_complete off)
              else ok (emit_if b called_write_complete off))
            (Streams (stream c) false)
    told true = finish (emit called_write_complete off) (record {
      valid = v;
      all =
          ap (λ t. t ++ contents c.output)
            (written-quiet off.trace called_write_complete refl ∙ written-quiet c.trace _ refl);
      writes = still;
    })
    told false = finish off (record {
      valid = v;
      all = ap (λ t. t ++ contents c.output) (written-quiet c.trace _ refl);
      writes = still;
    })

-- `HandleWrite` of a channel that waits for room, when write(2) takes n of the pending bytes, keeps the
-- stream, and goes on waiting exactly if bytes are left.
pub handle_write-Streams :
    (c : Connection) (n : ℕ) (r : Bool)
    → IsValid c.output
    → IsInterested r true c.channel
    → 0 < n
    → n ≤ length (contents c.output)
    → Returns
        (handle_write true (wrote n) c)
        (Streams (stream c) (ltb n (length (contents c.output))))
unfolding handle_write write_result write_some written
handle_write-Streams c n r v h some_written le =
    rw
      (
        (queries c.channel r true h).1,
        lt→ltb 0 n some_written,
        (retrieve_all_as_string_lem c.output v).0,
      )
      (elim (Bool-cases (readable_bytes rest == 0)) [
        | inl empty ↦
            (let all : length (contents c.output) ≤ n = omega (arith, left, (==_iff _ _).0 empty) in
              rw (empty, le→ltb n (length (contents c.output)) all)
                (subst (λ xs. Returns (drained d) (Streams xs false)) same
                  (drained-Streams d r true rest_holds.valid h)))
        | inr more ↦
            (let less : n < length (contents c.output) = omega (arith, left, le, nonzero more) in
              rw (more, lt→ltb n (length (contents c.output)) less)
                (record {
                  valid = rest_holds.valid;
                  all = same;
                  writes = (queries c.channel r true h).1;
                }))
      ])
  where
    rest : Buffer
    rest = retrieve c.output n

    rest_holds : Holds (drop n (contents c.output)) rest
    rest_holds = retrieve-Holds c.output n v

    d : Connection
    d = record (emit (sent (take n (contents c.output))) c) { output = rest }

    left : readable_bytes rest ≡ length (contents c.output) - n
    left = omega (
      arith,
      readable_bytes_lem rest rest_holds.valid,
      length-contents rest rest_holds.valid,
      ap length rest_holds.held,
      length-drop n (contents c.output),
    )

    nonzero : (readable_bytes rest == 0) ≡ false → 0 < readable_bytes rest
    nonzero e = ground arith

    same : stream d ≡ stream c
    same =
        ap₂ ◌++◌ (written-sent c.trace (take n (contents c.output))) rest_holds.held
        ∙ append_assoc (written c.trace) (take n (contents c.output)) (drop n (contents c.output))
        ∙ ap (λ t. written c.trace ++ t) (take-append-drop n (contents c.output))
