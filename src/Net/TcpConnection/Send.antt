-- ===== src/Net/TcpConnection/Send.antt =====
-- `SendInLoop`: what becomes of the bytes of a message.
use thread_library.Prelude.{
  ℕ, ◌+◌, ◌-◌, ◌≤◌, ◌<◌, ◌≡◌, refl, sym, ap, ap₂, ◌∙◌, subst, ◌⊎◌, inl, inr, Bool, true, false,
  ◌&&◌, List, [], ◌++◌, arith, length, take, drop, ltb, leb, ◌==◌, if◌then◌else◌, Bool-cases,
  lt→ltb, ltb→lt, le→ltb, not-ltb, append-nil, append_assoc, take-append-drop, length-drop,
  take_all, drop_all,
}
use thread_library.Prelude.Outcome.{ok, Returns, Returns->>=}
use thread_library.Net.Buffer.{max_size, readable_bytes, append}
use thread_library.Net.Buffer.Contents.{
  IsValid, contents, Holds, readable_bytes_lem, length-contents,
}
use thread_library.Net.Buffer.Fifo.{append-Holds}
use thread_library.Net.Channel.{is_writing}
use thread_library.Net.Channel.Events.{IsInterested, queries}
use thread_library.Net.TcpConnection.{
  disconnected, same_status, sent, called_write_complete, called_high_water, Connection, wrote,
  again, emit, emit_if, try_write, first_write, hold_rest, keep_rest, send_in_loop,
}
use thread_library.Net.TcpConnection.Stream.{
  written, stream, written-quiet, written-sent, emit_if-written, Streams, empty_test,
  emit_if-output, emit_if-channel, enabled,
}

hold_rest-Streams :
    (rest : List ℕ) (c : Connection) (r : Bool)
    → IsValid c.output
    → c.output.writer + length rest ≤ max_size
    → IsInterested r false c.channel
    → is_writing c.channel ≡ false
    → Returns (hold_rest rest c) (Streams (stream c ++ rest) true)
unfolding hold_rest
hold_rest-Streams rest c r v room quiet idle =
    Returns->>= (append c.output rest) _ (Holds (contents c.output ++ rest)) _
      (append-Holds c.output rest v room)
      (λ b h. rw idle (
        enabled (record c { output = b }) (stream c ++ rest) true r false h.valid quiet
          (ap (λ t. written c.trace ++ t) h.held
            ∙ sym (append_assoc (written c.trace) (contents c.output) rest))))

keep_rest-Streams :
    (message : List ℕ) (n : ℕ) (d : Connection) (r : Bool)
    → IsValid d.output
    → n ≤ length message
    → d.output.writer + length message ≤ max_size
    → IsInterested r false d.channel
    → Returns
        (keep_rest message
          (record { conn = d; writed = n; remaining = length message - n; fault_error = false }))
        (Streams (stream d ++ drop n message) true)
unfolding keep_rest written
keep_rest-Streams message n d r v le room quiet =
    rw (take_all (length message - n) (drop n message) (omega (arith, size)))
      (noticed (leb d.highwater_mark total && d.handlers.has_high_water))
  where
    size : length (drop n message) ≡ length message - n
    size = length-drop n message

    total : ℕ
    total = readable_bytes d.output + (length message - n)

    room' : d.output.writer + length (drop n message) ≤ max_size
    room' = omega (arith, size)

    still : is_writing d.channel ≡ false
    still = (queries d.channel r false quiet).1

    noticed :
        (b : Bool)
        → Returns
            (hold_rest (drop n message) (emit_if b (called_high_water total) d))
            (Streams (stream d ++ drop n message) true)
    noticed false = hold_rest-Streams (drop n message) d r v room' quiet still
    noticed true =
        subst
          (λ t.
            Returns (hold_rest (drop n message) (emit (called_high_water total) d))
              (Streams ((t ++ contents d.output) ++ drop n message) true))
          (written-quiet d.trace (called_high_water total) refl)
          (hold_rest-Streams (drop n message) (emit (called_high_water total) d) r v room' quiet
            still)

-- The second part of `SendInLoop` behind a write that took n bytes.
after_write :
    (message : List ℕ) (n : ℕ) (d : Connection) (r : Bool)
    → IsValid d.output
    → n ≤ length message
    → d.output.writer + length message ≤ max_size
    → IsInterested r false d.channel
    → Returns
        (if ltb 0 (length message - n)
          then keep_rest message
              (record { conn = d; writed = n; remaining = length message - n; fault_error = false })
          else ok d)
        (Streams (stream d ++ drop n message) (ltb n (length message)))
after_write message n d r v le room quiet = elim (Bool-cases (ltb 0 (length message - n))) [
  | inl more ↦
      (let less : n < length message = omega (arith, ltb→lt _ _ more) in
        rw (more, lt→ltb n (length message) less) (keep_rest-Streams message n d r v le room quiet))
  | inr done ↦
      (let all : length message ≤ n = omega (arith, not-ltb _ _ done) in
        rw (done, le→ltb n (length message) all, drop_all n message all)
          (record {
            valid = v;
            all = sym (append-nil (stream d));
            writes = (queries d.channel r false quiet).1;
          }))
]

sent_stream :
    (b : Bool) (c : Connection) (bytes : List ℕ)
    → contents c.output ≡ []
    → stream (emit_if b called_write_complete (emit (sent bytes) c)) ≡ stream c ++ bytes
unfolding written
sent_stream b c bytes e =
    ap₂ ◌++◌
      (emit_if-written b called_write_complete (emit (sent bytes) c) refl
        ∙ written-sent c.trace bytes)
      (ap contents (emit_if-output b called_write_complete (emit (sent bytes) c)) ∙ e)
    ∙ append-nil (written c.trace ++ bytes)
    ∙ ap (λ t. t ++ bytes) (sym (ap (λ t. written c.trace ++ t) e ∙ append-nil (written c.trace)))

-- Where nothing is pending and write(2) takes n bytes, `SendInLoop` loses none: it writes those, holds
-- the rest, and waits for room exactly if there is a rest.
pub send_idle :
    (c : Connection) (n : ℕ) (message : List ℕ) (r : Bool)
    → IsValid c.output
    → contents c.output ≡ []
    → IsInterested r false c.channel
    → same_status c.status disconnected ≡ false
    → n ≤ length message
    → c.output.writer + length message ≤ max_size
    → Returns
        (send_in_loop true (wrote n) message c)
        (Streams (stream c ++ message) (ltb n (length message)))
unfolding send_in_loop first_write try_write
send_idle c n message r v e quiet up le room =
    rw (up, (queries c.channel r false quiet).1, empty_test c.output v e)
      (told (length message - n == 0 && c.handlers.has_write_complete))
  where
    whole :
        (xs : List ℕ) → xs ≡ stream c ++ take n message → xs ++ drop n message ≡ stream c ++ message
    whole xs h =
        ap (λ t. t ++ drop n message) h
        ∙ append_assoc (stream c) (take n message) (drop n message)
        ∙ ap (λ t. stream c ++ t) (take-append-drop n message)

    told :
        (b : Bool)
        → let d = emit_if b called_write_complete (emit (sent (take n message)) c) in
          Returns
            (if ltb 0 (length message - n)
              then keep_rest message (record {
                conn = d;
                writed = n;
                remaining = length message - n;
                fault_error = false;
              })
              else ok d)
            (Streams (stream c ++ message) (ltb n (length message)))
    told b =
        let d : Connection = emit_if b called_write_complete (emit (sent (take n message)) c) in
        let same : d.output ≡ c.output =
          emit_if-output b called_write_complete (emit (sent (take n message)) c) in
        let chan : d.channel ≡ c.channel =
          emit_if-channel b called_write_complete (emit (sent (take n message)) c) in
        subst
          (λ xs.
            Returns
              (if ltb 0 (length message - n)
                then keep_rest message (record {
                  conn = d;
                  writed = n;
                  remaining = length message - n;
                  fault_error = false;
                })
                else ok d)
              (Streams xs (ltb n (length message))))
          (whole (stream d) (sent_stream b c (take n message) e))
          (after_write message n d r (rw same v) le (rw same room) (rw chan quiet))

-- Where bytes are pending, or the channel waits for room, `SendInLoop` loses the whole message: it
-- returns, and the connection is as before.
pub send_pending :
    (c : Connection) (n : ℕ) (message : List ℕ)
    → IsValid c.output
    → (is_writing c.channel ≡ true) ⊎ (0 < length (contents c.output))
    → send_in_loop true (wrote n) message c ≡ ok c
unfolding send_in_loop first_write
send_pending c n message v pending =
    ground (arith, readable_bytes_lem c.output v, length-contents c.output v, pending)

-- So does an attempt that write(2) answers by EAGAIN.
send_again : (c : Connection) (message : List ℕ) → send_in_loop true again message c ≡ ok c
unfolding send_in_loop first_write try_write
send_again c message = ground arith
