-- ===== src/Events/Tests.antt =====
-- The event of a first failure, and the witness of the theorem.
use synthetics_operator.Shared.{refl, Bool, true, [], ◌≡◌, ◌≢◌, ◌∷◌}
use synthetics_operator.Shared.Dict.{lookup}
use synthetics_operator.Float.Exact.{exact}
use synthetics_operator.Results.{ProbeResult}
use synthetics_operator.Metrics.{CrKey, key_eq, Store, new_store, never_run, upsert, notify}
use synthetics_operator.Consumer.{on_probe_result, probe_state}
use synthetics_operator.Executors.Tcp.{execute_tcp}
use synthetics_operator.Executors.Tests.{closed_net, tcp_job, running}
use synthetics_operator.Events.{Event, raised, event_of, on_probe_transition, emit}
use synthetics_operator.Events.Raised.{Reports, key_of_result, on_probe_result-raised}

abbrev result : ProbeResult exact
result = execute_tcp exact closed_net tcp_job

abbrev store : Store exact
store = record (new_store exact) { on_probe_transition = true }

abbrev everything : CrKey → Bool
everything key = true

on_probe_result-raised_example :
    (never_run ≡ "connect_refused" → raised everything (on_probe_result exact result store).1 ≡ [])
    × (never_run ≢ "connect_refused"
        → (event : Event) × (raised everything (on_probe_result exact result store).1 ≡ event ∷ [])
          × Reports (key_of_result exact result) "connect_refused" event)
unfolding running
on_probe_result-raised_example = on_probe_result-raised exact everything result store refl refl refl

-- The first failure is a warning about the probe.
first_failure :
    raised everything (on_probe_result exact result store).1
    ≡ event_of (key_of_result exact result) "ProbeActive" "ProbeFailed" never_run "connect_refused"
      ∷ []
unfolding running raised on_probe_transition emit on_probe_result upsert probe_state notify lookup
first_failure = refl
