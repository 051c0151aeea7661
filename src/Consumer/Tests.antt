-- ===== src/Consumer/Tests.antt =====
-- Runs of the consumer, and witnesses of its theorems.
use synthetics_operator.Shared.{
  ℕ, String, refl, true, false, none, some, List, [], arith, str_beq_iff, codes, pos, ◌≡◌, ◌≢◌, ◌∷◌,
  ◌+ℤ◌, string_eq, bytes_eq, nat_eq,
}
use synthetics_operator.Shared.Dict.{lookup, insert, erase}
use synthetics_operator.Float.Exact.{exact}
use synthetics_operator.Lifecycle.{State, evaluate, apply_spec, record_ping}
use synthetics_operator.Lifecycle.Pings.{SamePing}
use synthetics_operator.Results.{
  ProbeResult, kind_heartbeat, kind_k6_test, Time, NamespacedName, SpecUpdate, HeartbeatPing,
  TestResult,
}
use synthetics_operator.Metrics.{
  CrKey, key_eq, crkey, Store, new_store, heartbeat_received, probe_transition, test_transition,
  result_received, heartbeat_result, record_heartbeat_ping, upsert_test, record_test_result,
  set_heartbeat_spec, set_depends, set_metric_labels, result_from_success, delete, clear_depends,
  clear_metric_labels, upsert,
}
use synthetics_operator.Consumer.{
  Message, spec, ping, probe, test, handle, run, on_spec, on_heartbeat_ping, on_test_result,
  on_probe_result, probe_state, to_api_depends, copy_assertions,
}
use synthetics_operator.Consumer.Resync.{on_spec_idem, on_spec-SamePing}
use synthetics_operator.Consumer.Transitions.{
  replay, probe_change, test_change, stored_probe, stored_test, run-replay,
}

consumer : Unit {0}
unfolding run handle on_spec on_heartbeat_ping on_test_result on_probe_result probe_state
    to_api_depends copy_assertions upsert upsert_test record_test_result result_from_success
    record_heartbeat_ping set_heartbeat_spec set_depends set_metric_labels delete clear_depends
    clear_metric_labels heartbeat_result evaluate apply_spec record_ping lookup insert erase replay
    ◌+ℤ◌
consumer = tt

abbrev backup : SpecUpdate
backup = record {
  kind = kind_heartbeat;
  name = "backup";
  namespace = "ns";
  generation = pos 1;
  deleted = false;
  suspend = false;
  interval_ms = pos 0;
  depends = [];
  metric_labels = ("team", "ops") ∷ [];
  http_probe = none;
  dns_probe = none;
  tcp_probe = none;
  heartbeat = some (record {
    token = codes "hb_token";
    period_ms = pos 60000;
    grace_ms = pos 0;
    last_ping_unix = pos 50;
    last_result = "ok";
  });
}

abbrev gone : SpecUpdate
gone = record backup { deleted = true; heartbeat = none; metric_labels = [] }

abbrev beat : ℕ → HeartbeatPing
beat t = record {
  name = "backup";
  namespace = "ns";
  received_at = record { unix = pos t; nsec = 0 };
  failed = true;
  exit_code = pos 3;
  output = [];
}

abbrev k6_run : TestResult
k6_run = record {
  kind = kind_k6_test;
  name = "load";
  namespace = "ns";
  success = false;
  timestamp = record { unix = pos 90; nsec = 0 };
  duration_ms = pos 1200;
  tests = [];
}

abbrev clock : ℕ → Time
clock t = record { unix = pos t; nsec = 0 }

abbrev http_result : String → ProbeResult exact
http_result result = record {
  kind = "HTTPProbe";
  name = "backup";
  namespace = "ns";
  generation = pos 1;
  timestamp = record { unix = pos 95; nsec = 0 };
  duration_ms = pos 12;
  result = result;
  failed_assertion = "";
  http_status_code = pos 200;
  http_version = pos 1100;
  url = "https://example.com";
  method = "GET";
  tls_cert_expiry_unix = pos 0;
  http_phase_dns_ms = pos 1;
  http_phase_connect_ms = pos 1;
  http_phase_tls_ms = pos 1;
  http_phase_processing_ms = pos 1;
  http_phase_transfer_ms = pos 1;
  assertion_results = [];
  dns_query_name = "";
  dns_resolver = "";
  dns_first_answer_value = "";
  dns_first_answer_type = "";
  dns_answer_count = pos 0;
  dns_authority_count = pos 0;
  dns_additional_count = pos 0;
  tcp_host = [];
  tcp_port = pos 0;
}

-- Two failures in a row are one event, and the recovery is another.
abbrev probed : List (Message exact)
probed =
    probe (http_result "tls_failed")
    ∷ probe (http_result "tls_failed")
    ∷ spec backup
    ∷ probe (http_result "ok")
    ∷ []

abbrev listening : Store exact
listening = record (new_store exact) { on_probe_transition = true; on_test_transition = true }

abbrev name : NamespacedName
name = record { namespace = "ns"; name = "backup" }

events :
    (run exact (spec backup ∷ ping (beat 60) (clock 61) ∷ test k6_run ∷ []) listening).1
    ≡ heartbeat_received name "failed"
      ∷ probe_transition name kind_heartbeat "ok" "reported_failure"
      ∷ result_received kind_k6_test (record { namespace = "ns"; name = "load" })
      ∷ test_transition (record { namespace = "ns"; name = "load" }) kind_k6_test "" "test_failed"
      ∷ []
unfolding consumer
events = refl

abbrev after_ping : Store exact
after_ping = (run exact (spec backup ∷ ping (beat 60) (clock 61) ∷ []) listening).0

abbrev seen : State exact
seen = record {
  period_seconds = pos 60000;
  grace_seconds = pos 0;
  last_ping_unix = pos 60000;
  reported_failure = true;
  exit_code = pos 3000;
  suspended = false;
}

after_ping-seen : lookup (crkey kind_heartbeat name) after_ping.heartbeats ≡ some seen
unfolding consumer
after_ping-seen = refl

on_spec_idem_example :
    on_spec exact backup (on_spec exact backup after_ping) ≡ on_spec exact backup after_ping
on_spec_idem_example = on_spec_idem exact backup after_ping

on_spec-SamePing_example :
    (st : State exact) × (lookup
        (crkey kind_heartbeat name)
        (on_spec exact backup after_ping).heartbeats
      ≡ some st)
    × SamePing exact st seen
on_spec-SamePing_example =
    on_spec-SamePing exact backup after_ping (crkey kind_heartbeat name) seen refl after_ping-seen

abbrev http_key : CrKey
http_key = crkey "HTTPProbe" name

probe_events :
    (run exact probed listening).1
    ≡ probe_transition name "HTTPProbe" "" "tls_failed"
      ∷ probe_transition name "HTTPProbe" "tls_failed" "ok"
      ∷ []
unfolding consumer
probe_events = refl

-- A failure of a load test, the same again, and its recovery, among the results of a probe.
abbrev mixed : List (Message exact)
mixed = test k6_run ∷ test k6_run ∷ test (record k6_run { success = true }) ∷ probed

abbrev load_key : CrKey
load_key = crkey kind_k6_test (record { namespace = "ns"; name = "load" })

run-replay_example :
    (replay probe_change load_key
        (stored_probe exact load_key listening)
        (run exact mixed listening).1
      ≡ some (stored_probe exact load_key (run exact mixed listening).0))
    × (replay test_change load_key
          (stored_test exact load_key listening)
          (run exact mixed listening).1
        ≡ some (stored_test exact load_key (run exact mixed listening).0))
run-replay_example =
    run-replay exact load_key mixed listening (λ e. kinds_differ e) refl refl
      (tt, (tt, (tt, (tt, (tt, (refl, (tt, tt)))))))
  where
    kinds_differ : ◌≢◌ {A = String} "K6Test" "Heartbeat"
    kinds_differ = ground (arith, str_beq_iff "K6Test" "Heartbeat")

-- What the listeners end with, of the load test and of the probe.
learned :
    (replay test_change load_key "" (run exact mixed listening).1 ≡ some "ok")
    × (replay probe_change http_key "" (run exact mixed listening).1 ≡ some "ok")
unfolding consumer
learned = (refl, refl)
