-- ===== src/Log/AsyncLogging/Runs.antt =====
-- The callers of `Append` and the loop of `ThreadFunc` of framework/log/src/AsyncLogging.cpp in any order.
pub mod Whole
use thread_library.Prelude.{
  ℕ, ◌<◌, ◌≡◌, refl, sym, ap, ◌∙◌, Bool, true, false, ◌||◌, List, [], ◌∷◌, ◌++◌, All, length, leb,
  ◌⊎◌, inl, inr, append-nil, append_assoc, subst, Bool-cases, arith, if◌then◌else◌,
}
use thread_library.Prelude.Outcome.{
  Outcome, ok, fatal, thrown, fault, Returns, Returns->>=, Returns-mono, ◌>>=◌,
}
use thread_library.Log.FixedBuffer
use thread_library.Log.AsyncLogging.{
  Front, Back, create, start_thread, append_line, collect, write_out, new_buffer, large_buffer,
  max_pending,
}
use thread_library.Log.AsyncLogging.Stream.{FrontInv, pending, append_line-Logged, create-FrontInv}
use thread_library.Log.AsyncLogging.Writer.{
  BackInv, Round, joined, collect-write_out, start_thread-BackInv,
}

-- Where the writer is in its loop: at the test of `running_`, at the critical section, behind it, or at its
-- end.
pub data WriterPhase : Type 0 where
  tests collects writes ended : WriterPhase

-- With all bytes that were given to `Append`, and whether a round had more than 25 buffers.
pub record Site : Type 0 where
  pub front : Front
  pub back : Back
  pub phase : WriterPhase
  pub running : Bool
  pub given : List ℕ
  pub dropped : Bool

pub data Event : Type 0 where
  appends : List ℕ → Event
  -- the writer goes on; the text is the message that it would write for what it sheds
  advances : List ℕ → Event
  stops : Event

-- What `Start` leaves, once the thread runs.
unfoldable pub started : Site
started = record {
  front = create;
  back = start_thread;
  phase = tests;
  running = true;
  given = [];
  dropped = false;
}

unfoldable pub advance : WriterPhase → List ℕ → Site → Outcome Site
unfolding collect write_out
advance tests message s = ok (record s { phase = if s.running then collects else ended })
advance collects message s = collect s.front s.back >>= λ r. ok (record s {
  front = r.0;
  back = r.1;
  phase = writes;
  dropped = s.dropped || leb max_pending (length s.front.buffers);
})
advance writes message s =
    write_out message s.back >>= λ b. ok (record s { back = b; phase = tests })
advance ended message s = ok s

unfoldable pub occur : Event → Site → Outcome Site
unfolding advance append_line
occur (appends line) s =
    append_line line s.front >>= λ f. ok (record s { front = f; given = s.given ++ line })
occur (advances message) s = advance s.phase message s
occur stops s = ok (record s { running = false })

unfoldable pub run : List Event → Site → Outcome Site
unfolding occur
run [] s = ok s
run (e ∷ es) s = occur e s >>= run es

-- The writer ends the round that it is in.
unfoldable pub finish_round : List ℕ → Site → Outcome Site
unfolding advance
finish_round message s = elim s.phase [ writes ↦ advance writes message s | other ↦ ok s ]
