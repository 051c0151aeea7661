-- ===== src/Consumer.antt =====
-- internal/metricsconsumer/consumer.go: the handlers that turn bus messages into store updates.
-- Each handler runs as one step; `now` is the store's clock when a ping is handled.
pub mod Resync
pub mod Isolation
pub mod Transitions
mod Tests
use synthetics_operator.Shared.{
  String, Bool, Option, none, some, List, [], ℤ, pos, ltb_ℤ, ◌∷◌, ◌++◌, ◌==◌, string_eq, bytes_eq,
  nat_eq, if◌then◌else◌,
}
use synthetics_operator.Float.{Float64}
use synthetics_operator.Results.{
  kind_heartbeat, kind_playwright_test, Time, NamespacedName, DependencyRef, AssertionResult,
  HeartbeatSpecPayload, HeartbeatPing, SpecUpdate, ProbeResult, TestResult,
}
use synthetics_operator.Metrics.{
  ProbeState, Store, Effect, upsert, delete, set_depends, clear_depends, set_metric_labels,
  clear_metric_labels, record_test_result, record_playwright_result, set_heartbeat_spec,
  record_heartbeat_ping,
}

-- syntheticsv1alpha1.HeartbeatResultFailed
abbrev pub heartbeat_result_failed : String
heartbeat_result_failed = "failed"

-- The wire type of a reference has the fields of the API type, and the two are one record here.
unfoldable pub to_api_depends : List DependencyRef → List DependencyRef
to_api_depends [] = []
to_api_depends (d ∷ deps) = record { kind = d.kind; name = d.name } ∷ to_api_depends deps

module _ (F : Float64) where
  open F use {Float, of_int, div}

  -- float64(ms) / 1000
  abbrev pub seconds : ℤ → Float
  seconds ms = div (of_int ms) (of_int (pos 1000))

  abbrev set_heartbeat : NamespacedName → Bool → HeartbeatSpecPayload → Store F → Store F
  set_heartbeat name suspend payload s =
      set_heartbeat_spec F name (seconds payload.period_ms) (seconds payload.grace_ms) suspend
        (of_int payload.last_ping_unix) (payload.last_result == heartbeat_result_failed) s

  abbrev pub set_payload : NamespacedName → Bool → Option HeartbeatSpecPayload → Store F → Store F
  set_payload name suspend none s = s
  set_payload name suspend (some payload) s = set_heartbeat name suspend payload s

  unfoldable pub on_spec : SpecUpdate → Store F → Store F
  on_spec msg s =
      let name : NamespacedName = record { namespace = msg.namespace; name = msg.name } in
      if msg.deleted
      then clear_metric_labels F msg.kind name
          (clear_depends F msg.kind name (delete F msg.kind name s))
      else let spec =
          set_metric_labels F msg.kind name msg.metric_labels
            (set_depends F msg.kind name (to_api_depends msg.depends) s) in
        if msg.kind == kind_heartbeat then set_payload name msg.suspend msg.heartbeat spec else spec

  unfoldable pub on_heartbeat_ping : HeartbeatPing → Time → Store F → Store F × List Effect
  on_heartbeat_ping msg now s =
      record_heartbeat_ping F (record { namespace = msg.namespace; name = msg.name }) msg.failed
        msg.exit_code (of_int msg.received_at.unix) now s

  unfoldable pub copy_assertions : List (AssertionResult F) → List (AssertionResult F)
  copy_assertions [] = []
  copy_assertions (ar ∷ rest) =
      record { name = ar.name; expr = ar.expr; result = ar.result } ∷ copy_assertions rest

  unfoldable pub probe_state : ProbeResult F → ProbeState F
  probe_state msg = record {
    kind = msg.kind;
    result = msg.result;
    failed_assertion = msg.failed_assertion;
    duration_milliseconds = of_int msg.duration_ms;
    last_run_timestamp = of_int msg.timestamp.unix;
    http_status_code = of_int msg.http_status_code;
    http_version = msg.http_version;
    url = msg.url;
    method = msg.method;
    tls_cert_expiry =
        if ltb_ℤ (pos 0) msg.tls_cert_expiry_unix
        then of_int msg.tls_cert_expiry_unix
        else of_int (pos 0);
    http_phase_dns_ms = msg.http_phase_dns_ms;
    http_phase_connect_ms = msg.http_phase_connect_ms;
    http_phase_tls_ms = msg.http_phase_tls_ms;
    http_phase_processing_ms = msg.http_phase_processing_ms;
    http_phase_transfer_ms = msg.http_phase_transfer_ms;
    assertion_results = copy_assertions msg.assertion_results;
    dns_query_name = msg.dns_query_name;
    dns_resolver = msg.dns_resolver;
    dns_first_answer_value = msg.dns_first_answer_value;
    dns_first_answer_type = msg.dns_first_answer_type;
    dns_answer_count = of_int msg.dns_answer_count;
    dns_authority_count = of_int msg.dns_authority_count;
    dns_additional_count = of_int msg.dns_additional_count;
    tcp_host = msg.tcp_host;
    tcp_port = msg.tcp_port;
  }

  unfoldable pub on_probe_result : ProbeResult F → Store F → Store F × List Effect
  on_probe_result msg s =
      upsert F (record { namespace = msg.namespace; name = msg.name }) (probe_state msg) s

  unfoldable pub on_test_result : TestResult → Store F → Store F × List Effect
  on_test_result msg s =
      let name : NamespacedName = record { namespace = msg.namespace; name = msg.name } in
      if msg.kind == kind_playwright_test
      then record_playwright_result F name msg.success msg.duration_ms (of_int msg.timestamp.unix)
          msg.tests s
      else record_test_result F name msg.kind msg.success msg.duration_ms
          (of_int msg.timestamp.unix) s

  -- The messages of the four subscriptions, in the order in which they are handled.
  pub data Message : Type 0 where
    spec : SpecUpdate → Message
    ping : HeartbeatPing → Time → Message
    probe : ProbeResult F → Message
    test : TestResult → Message

  unfoldable pub handle : Message → Store F → Store F × List Effect
  handle (spec msg) s = (on_spec msg s, [])
  handle (ping msg now) s = on_heartbeat_ping msg now s
  handle (probe msg) s = on_probe_result msg s
  handle (test msg) s = on_test_result msg s

  unfoldable pub run : List Message → Store F → Store F × List Effect
  run [] s = (s, [])
  run (m ∷ ms) s =
      let (s', effects) = handle m s in let (s'', later) = run ms s' in (s'', effects ++ later)
