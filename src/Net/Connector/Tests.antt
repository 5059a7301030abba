-- ===== src/Net/Connector/Tests.antt =====
-- Runs of a connector at concrete answers of the socket and the poller.
use thread_library.Prelude.{◌≡◌, refl, true, false, [], ◌∷◌, some}
use thread_library.Prelude.Outcome.{Returns, fatal, ◌>>=◌}
use thread_library.Net.Connector.{
  Connector, Attempt, einprogress, connecting, create, start, dispatch, connecting_channel,
}
use thread_library.Net.Connector.Events.{stop_called, written, errored, next_task, run, IsSound}
use thread_library.Net.Connector.Runs.{run-start}
use thread_library.Net.Connector.Reports.{dispatch_aborts}

abbrev in_progress : Attempt
in_progress = record { opened = true; fd = 7; answer = some einprogress }

-- The connection fails once, is retried, then succeeds, and the connector is stopped.
run-start_example :
    Returns
      (start true in_progress (create 1)
        >>= run (
            errored
            ∷ next_task in_progress
            ∷ next_task in_progress
            ∷ written false
            ∷ stop_called
            ∷ next_task in_progress
            ∷ []))
      IsSound
run-start_example =
    run-start 1 true in_progress
      (errored
        ∷ next_task in_progress
        ∷ next_task in_progress
        ∷ written false
        ∷ stop_called
        ∷ next_task in_progress
        ∷ [])
      refl (tt, (refl, (refl, (tt, (tt, (refl, tt))))))

abbrev waiting : Connector
waiting = record (create 1) {
  status = connecting;
  channel = some (connecting_channel 1 7);
  connect = true;
}

-- POLLOUT, POLLERR and POLLHUP.
dispatch_aborts_example : dispatch true 0x1c (connecting_channel 1 7) waiting ≡ fatal
unfolding create
dispatch_aborts_example = dispatch_aborts true 0x1c 7 waiting refl refl refl refl
