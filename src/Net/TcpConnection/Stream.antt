-- ===== src/Net/TcpConnection/Stream.antt =====
-- The bytes that a connection has written to its socket and those that it still holds, as one stream.
use thread_library.Prelude.{
  ℕ, ◌≡◌, refl, sym, ap, ◌∙◌, Bool, true, false, List, [], ◌∷◌, ◌++◌, arith, length, ◌==◌, ==_true,
  append-nil, append_assoc,
}
use thread_library.Net.Buffer.{Buffer, readable_bytes}
use thread_library.Net.Buffer.Contents.{IsValid, contents, readable_bytes_lem, length-contents}
use thread_library.Net.Channel.{Channel, is_writing, enable_writing}
use thread_library.Net.Channel.Events.{IsInterested, writing, apply, switch_queries}
use thread_library.Net.TcpConnection.{Effect, sent, shut_down_write, Connection, emit_if, switch}

-- The bytes that the effects gave to the socket.
unfoldable pub written : List Effect → List ℕ
written [] = []
written (sent bytes ∷ es) = bytes ++ written es
written (_ ∷ es) = written es

-- Everything that was accepted from the callers so far and not lost.
abbrev pub stream : Connection → List ℕ
stream c = written c.trace ++ contents c.output

written-append : (es fs : List Effect) → written (es ++ fs) ≡ written es ++ written fs
unfolding written
written-append [] fs = refl
written-append (sent bytes ∷ es) fs =
    ap (λ t. bytes ++ t) (written-append es fs) ∙ sym (append_assoc bytes (written es) (written fs))
written-append (shut_down_write ∷ es) fs = written-append es fs
written-append (_ ∷ es) fs = written-append es fs

pub written-quiet :
    (es : List Effect) (e : Effect) → written (e ∷ []) ≡ [] → written (es ++ e ∷ []) ≡ written es
written-quiet es e h =
    written-append es (e ∷ []) ∙ ap (λ t. written es ++ t) h ∙ append-nil (written es)

pub written-sent :
    (es : List Effect) (bytes : List ℕ) → written (es ++ sent bytes ∷ []) ≡ written es ++ bytes
unfolding written
written-sent es bytes =
    written-append es (sent bytes ∷ []) ∙ ap (λ t. written es ++ t) (append-nil bytes)

pub emit_if-written :
    (b : Bool) (e : Effect) (c : Connection)
    → written (e ∷ []) ≡ []
    → written (emit_if b e c).trace ≡ written c.trace
emit_if-written true e c h = written-quiet c.trace e h
emit_if-written false e c h = refl

-- A connection after a call: its output is valid, its stream is as given, and it writes or not.
pub record Streams (xs : List ℕ) (busy : Bool) (c : Connection) : Type 0 where
  pub valid : IsValid c.output
  pub all : stream c ≡ xs
  pub writes : is_writing c.channel ≡ busy

-- `readable_bytes` as the emptiness test of the code.
pub empty_test : (b : Buffer) → IsValid b → contents b ≡ [] → (readable_bytes b == 0) ≡ true
empty_test b v e =
    ==_true _ _ (omega (arith, readable_bytes_lem b v, length-contents b v, ap length e))

pub enable_writing-queries :
    (k : Channel) (r w s : Bool) → IsInterested r w k → is_writing (enable_writing s k) ≡ s
unfolding apply
enable_writing-queries k r w s h = (switch_queries k r w (writing s) h).2

-- Effects keep the other fields.
pub emit_if-output : (b : Bool) (e : Effect) (c : Connection) → (emit_if b e c).output ≡ c.output
emit_if-output true e c = refl
emit_if-output false e c = refl

pub emit_if-channel : (b : Bool) (e : Effect) (c : Connection) → (emit_if b e c).channel ≡ c.channel
emit_if-channel true e c = refl
emit_if-channel false e c = refl

pub enabled :
    (c : Connection) (xs : List ℕ) (s : Bool) (r w : Bool)
    → IsValid c.output
    → IsInterested r w c.channel
    → stream c ≡ xs
    → Streams xs s (switch (enable_writing s c.channel) c)
unfolding written
enabled c xs s r w v h e = record {
  valid = v;
  all = ap (λ t. t ++ contents c.output) (written-quiet c.trace _ refl) ∙ e;
  writes = enable_writing-queries c.channel r w s h;
}
