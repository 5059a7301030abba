-- ===== src/Net/Acceptor/Tests.antt =====
-- Reports of a listening socket.
use thread_library.Prelude.{◌+◌, ◌≡◌, [], ◌∷◌, List, some, none}
use thread_library.Prelude.Outcome.{Returns}
use thread_library.Net.Acceptor.{
  Acceptor, AcceptResult, accepted, exhausted, failed, create, set_new_connection_callback,
  handle_reads,
}
use thread_library.Net.Acceptor.Descriptors.{settled, times, given_all, handle_reads-settled}

abbrev acceptor : Acceptor
acceptor = set_new_connection_callback (create 1 3 4)

abbrev reports : List AcceptResult
reports = accepted 5 ∷ exhausted (some 4) none ∷ failed ∷ accepted 6 ∷ []

handle_reads_example :
    Returns
      (handle_reads reports acceptor)
      λ b. settled 4 b ≡ settled 4 acceptor + times 4 (given_all reports)
handle_reads_example = handle_reads-settled 4 reports acceptor (tt, (tt, (tt, (tt, tt))))
