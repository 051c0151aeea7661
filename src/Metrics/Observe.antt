-- ===== src/Metrics/Observe.antt =====
-- internal/metrics/store.go and heartbeat.go, the scrape: registerCallback's function, with
-- observeProbe, observeTest, observeHeartbeat and what they call. An observation is what the
-- observer is given.
pub mod Keys
pub mod UserLabels
pub mod Collisions
pub mod Scrape
mod Tests
use synthetics_operator.Shared.{
  String, Bool, true, false, Option, none, some, List, [], Bytes, length, ℤ, pos, ◌∷◌, ◌++◌, ◌==◌,
  string_eq, bytes_eq, nat_eq, if◌then◌else◌,
}
use synthetics_operator.Shared.Dict.{Dict, lookup}
use Prim.Native.String.{compare}
use Prim.Native.Nat.{Ordering}
use synthetics_operator.Float.{Float64}
use synthetics_operator.Lifecycle.{State, evaluate}
use synthetics_operator.Results.{
  Kind, kind_heartbeat, kind_playwright_test, kind_http_probe, kind_dns_probe, kind_tcp_probe, Time,
  NamespacedName, DependencyRef, TestCase, AssertionResult,
}
use synthetics_operator.Metrics.{
  CrKey, key_eq, crkey, Result, result_ok, success_value, heartbeat_result, ProbeState, TestState,
  Store,
}
use synthetics_operator.Metrics.Suppression.{find_unhealthy_dep}

-- An attribute's value; a host and an expression are kept as their bytes.
pub data Value : Type 0 where
  text : String → Value
  bytes : Bytes → Value
  int : ℤ → Value

abbrev pub Attrs : Type 0
Attrs = List (String × Value)

-- The instruments that a scrape observes.
pub data Gauge : Type 0 where
  probe_gauge probe_result_info probe_suppressed probe_duration probe_last_run : Gauge
  tls_cert_expiry http_status_code http_version http_phase_duration http_info : Gauge
  assertion_result : Gauge
  dns_response_ms dns_first_answer_value dns_first_answer_type : Gauge
  dns_answer_count dns_authority_count dns_additional_count : Gauge
  tcp_info : Gauge
  heartbeat_gauge heartbeat_result_info heartbeat_suppressed heartbeat_last_received : Gauge
  heartbeat_period_seconds heartbeat_grace_seconds heartbeat_exit_code : Gauge
  test_gauge test_result_info test_suppressed test_duration test_last_run : Gauge
  playwright_case_passed playwright_case_duration_ms : Gauge
  playwright_cases_total playwright_cases_passed playwright_cases_failed : Gauge

-- slices.Sort on the keys, with each key's value.
abbrev str_leb : String → String → Bool
str_leb a b = elim (compare a b) [ Ordering.gt ↦ false | _ ↦ true ]

unfoldable pub place : String × String → Dict String String → Dict String String
place x [] = x ∷ []
place x (y ∷ m) = let rest = place x m in if str_leb x.0 y.0 then x ∷ y ∷ m else y ∷ rest

unfoldable pub sort_labels : Dict String String → Dict String String
sort_labels [] = []
sort_labels (x ∷ m) = place x (sort_labels m)

unfoldable pub text_attrs : Dict String String → Attrs
text_attrs [] = []
text_attrs ((k, v) ∷ m) = (k, text v) ∷ text_attrs m

abbrev pub labels_or_nil : Option (Dict String String) → Dict String String
labels_or_nil none = []
labels_or_nil (some labels) = labels

-- A label that is left out where its value is empty.
abbrev text_unless_empty : String → String → Attrs
text_unless_empty key value = if value == "" then [] else (key, text value) ∷ []

abbrev pub base_attrs : NamespacedName → Kind → Attrs
base_attrs name kind =
    ("name", text name.name) ∷ ("namespace", text name.namespace) ∷ ("kind", text kind) ∷ []

abbrev dependency_attrs : DependencyRef → Attrs
dependency_attrs dep =
    ("unhealthy_dependency", text dep.name) ∷ ("unhealthy_dependency_kind", text dep.kind) ∷ []

-- An observed kind: HTTPProbe where the state has none.
abbrev pub kind_or_http : Kind → Kind
kind_or_http kind = if kind == "" then kind_http_probe else kind

module _ (F : Float64) where
  open F use {Float, of_int, add, lt}

  pub record Observation : Type 0 where
    pub gauge : Gauge
    pub value : Float
    pub attrs : Attrs

  abbrev pub observe : Gauge → Float → Attrs → Observation
  observe gauge value attrs = record { gauge = gauge; value = value; attrs = attrs }

  abbrev pub one : Float
  one = of_int (pos 1)

  unfoldable pub target_attrs : Kind → ProbeState F → Attrs
  target_attrs kind state =
      if kind == kind_http_probe
      then text_unless_empty "url" state.url
      else if kind == kind_tcp_probe
      then (if state.tcp_host == []
          then []
          else ("host", bytes state.tcp_host) ∷ ("port", int state.tcp_port) ∷ [])
      else if kind == kind_dns_probe
      then text_unless_empty "query" state.dns_query_name
        ++ text_unless_empty "resolver" state.dns_resolver
      else []

  unfoldable pub observe_tcp : Attrs → List Observation
  observe_tcp attrs = observe tcp_info one attrs ∷ []

  abbrev pub phase : Attrs → String → Float → Observation
  phase attrs name value = observe http_phase_duration value (attrs ++ ("phase", text name) ∷ [])

  unfoldable pub observe_http : Attrs → ProbeState F → List Observation
  observe_http attrs state =
      observe http_info one (attrs ++ ("method", text state.method) ∷ [])
        ∷ observe http_status_code state.http_status_code attrs
        ∷ observe http_version state.http_version attrs
        ∷ (if lt (of_int (pos 0)) state.tls_cert_expiry
            then observe tls_cert_expiry state.tls_cert_expiry attrs ∷ []
            else [])
      ++ phase attrs "dns" state.http_phase_dns_ms
        ∷ phase attrs "connect" state.http_phase_connect_ms
        ∷ phase attrs "tls" state.http_phase_tls_ms
        ∷ phase attrs "processing" state.http_phase_processing_ms
        ∷ phase attrs "transfer" state.http_phase_transfer_ms
        ∷ []

  -- An answer's label is observed where the answer has one.
  abbrev observe_answer : Gauge → Attrs → String → String → List Observation
  observe_answer gauge attrs key value =
      if value == "" then [] else observe gauge one (attrs ++ (key, text value) ∷ []) ∷ []

  unfoldable pub observe_dns : Attrs → ProbeState F → List Observation
  observe_dns attrs state =
      observe dns_response_ms state.duration_milliseconds attrs
        ∷ observe dns_answer_count state.dns_answer_count attrs
        ∷ observe dns_authority_count state.dns_authority_count attrs
        ∷ observe dns_additional_count state.dns_additional_count attrs
        ∷ observe_answer dns_first_answer_value attrs "value" state.dns_first_answer_value
      ++ observe_answer dns_first_answer_type attrs "type" state.dns_first_answer_type

  unfoldable pub observe_assertions : Attrs → List (AssertionResult F) → List Observation
  observe_assertions attrs [] = []
  observe_assertions attrs (ar ∷ rest) =
      observe assertion_result ar.result
        (attrs ++ ("assertion", text ar.name) ∷ ("expr", bytes ar.expr) ∷ [])
      ∷ observe_assertions attrs rest

  abbrev observe_case : Attrs → TestCase → List Observation
  observe_case attrs tc =
      let case_attrs = attrs ++ ("suite", text tc.suite) ∷ ("test", text tc.test) ∷ [] in
      observe playwright_case_passed (if tc.passed then one else of_int (pos 0)) case_attrs
      ∷ observe playwright_case_duration_ms (of_int tc.duration_ms) case_attrs
      ∷ []

  -- The loop over the cases: the counts so far go in and come out.
  unfoldable pub observe_cases :
      Attrs → List TestCase → Float → Float → Float × Float × List Observation
  observe_cases attrs [] passed failed = (passed, failed, [])
  observe_cases attrs (tc ∷ rest) passed failed =
      let (p, f, below) =
        observe_cases attrs rest (if tc.passed then add passed one else passed)
          (if tc.passed then failed else add failed one) in
      (p, f, observe_case attrs tc ++ below)

  unfoldable pub observe_playwright : Attrs → TestState F → List Observation
  observe_playwright attrs state =
      let (passed, failed, cases) =
        observe_cases attrs state.playwright_tests (of_int (pos 0)) (of_int (pos 0)) in
      cases
      ++ observe playwright_cases_total (of_int (pos (length state.playwright_tests))) attrs
        ∷ observe playwright_cases_passed passed attrs
        ∷ observe playwright_cases_failed failed attrs
        ∷ []

  abbrev pub observe_suppressed : Gauge → Attrs → Result → Option DependencyRef → List Observation
  observe_suppressed gauge attrs result none = []
  observe_suppressed gauge attrs result (some dep) =
      if result == result_ok then [] else observe gauge one (attrs ++ dependency_attrs dep) ∷ []

  abbrev pub observe_by_kind : Kind → Attrs → ProbeState F → List Observation
  observe_by_kind kind attrs state =
      if kind == kind_http_probe
      then observe_http attrs state
      else if kind == kind_dns_probe
      then observe_dns attrs state
      else if kind == kind_tcp_probe
      then observe_tcp attrs
      else []

  module _ (s : Store F) (now : Time) where
    unfoldable pub user_labels : Kind → NamespacedName → Attrs
    user_labels kind name =
        text_attrs (sort_labels (labels_or_nil (lookup (crkey kind name) s.metric_labels)))

    abbrev probe_attrs : NamespacedName → Kind → ProbeState F → Attrs
    probe_attrs name kind state =
        (base_attrs name kind ++ target_attrs kind state) ++ user_labels kind name

    unfoldable pub observe_probe : NamespacedName → ProbeState F → List Observation
    observe_probe name state =
        let kind = kind_or_http state.kind in
        let attrs = probe_attrs name kind state in
        observe probe_gauge (success_value F state.result) attrs
          ∷ observe probe_result_info one (
              attrs
              ++ ("result", text state.result)
                ∷ ("failed_assertion", text state.failed_assertion)
                ∷ [])
          ∷ observe probe_duration state.duration_milliseconds attrs
          ∷ observe probe_last_run state.last_run_timestamp attrs
          ∷ observe_suppressed probe_suppressed attrs state.result
              (find_unhealthy_dep F s now kind name)
        ++ observe_assertions attrs state.assertion_results
        ++ observe_by_kind kind attrs state

    unfoldable pub observe_test : NamespacedName → TestState F → List Observation
    observe_test name state =
        let attrs = base_attrs name state.kind ++ user_labels state.kind name in
        observe test_gauge (success_value F state.result) attrs
          ∷ observe test_result_info one (attrs ++ ("result", text state.result) ∷ [])
          ∷ observe test_duration state.duration_milliseconds attrs
          ∷ observe test_last_run state.last_run_timestamp attrs
          ∷ observe_suppressed test_suppressed attrs state.result
              (find_unhealthy_dep F s now state.kind name)
        ++ (if state.kind == kind_playwright_test then observe_playwright attrs state else [])

    unfoldable pub observe_heartbeat : NamespacedName → State F → List Observation
    observe_heartbeat name state =
        let attrs = base_attrs name kind_heartbeat ++ user_labels kind_heartbeat name in
        let result = heartbeat_result (evaluate F state now) in
        if state.suspended
        then []
        else observe heartbeat_gauge (success_value F result) attrs
          ∷ observe heartbeat_result_info one (attrs ++ ("result", text result) ∷ [])
          ∷ observe heartbeat_last_received state.last_ping_unix attrs
          ∷ observe heartbeat_period_seconds state.period_seconds attrs
          ∷ observe heartbeat_grace_seconds state.grace_seconds attrs
          ∷ observe heartbeat_exit_code state.exit_code attrs
          ∷ observe_suppressed heartbeat_suppressed attrs result
              (find_unhealthy_dep F s now kind_heartbeat name)

    unfoldable pub observe_all :
        {A : Type 0} → (NamespacedName → A → List Observation) → Dict CrKey A → List Observation
    observe_all f [] = []
    observe_all f ((key, state) ∷ rest) = f key.name state ++ observe_all f rest

    -- The callback, over the three maps in the order of their entries.
    unfoldable pub scrape : List Observation
    scrape =
        observe_all observe_probe s.probes
        ++ observe_all observe_test s.tests
        ++ observe_all observe_heartbeat s.heartbeats
