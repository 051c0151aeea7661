-- ===== src/Metrics.antt =====
-- internal/metrics/store.go and internal/metrics/heartbeat.go: the in-process metrics state, and
-- the operations that change it. The mutex makes each operation one step. What an operation does
-- outside the state (a transition callback, a counter) is an `Effect` of its result.
pub mod Suppression
pub mod Observe
use synthetics_operator.Shared.{
  String, Bool, true, false, not, Option, none, some, List, [], arith, Eq, str_beq_iff, Bytes, ℤ,
  pos, ◌≡◌, ◌↔◌, ◌&&◌, ◌∷◌, ◌==◌, string_eq, bytes_eq, nat_eq, if◌then◌else◌,
}
use synthetics_operator.Shared.Dict.{Dict, lookup, insert, erase}
use synthetics_operator.Float.{Float64}
use synthetics_operator.Lifecycle
use synthetics_operator.Lifecycle.{State, Seed, zero_state, apply_spec, record_ping, evaluate}
use synthetics_operator.Results.{
  Kind, kind_heartbeat, kind_playwright_test, Time, NamespacedName, name_beq, name_eq, name_beq_iff,
  DependencyRef, TestCase, AssertionResult,
}

-- Result is a string, and a prober may send any; "" stands for "never run".
abbrev pub Result : Type 0
Result = String

abbrev pub result_ok : Result
result_ok = "ok"

abbrev result_test_failed : Result
result_test_failed = "test_failed"

abbrev pub never_run : Result
never_run = ""

-- heartbeatResult: lifecycle results are strings with the same spelling.
unfoldable pub heartbeat_result : Lifecycle.Result → Result
heartbeat_result Lifecycle.ok = "ok"
heartbeat_result Lifecycle.pending = "pending"
heartbeat_result Lifecycle.missed = "missed"
heartbeat_result Lifecycle.reported_failure = "reported_failure"

unfoldable pub result_from_success : Bool → Result
result_from_success success = if success then result_ok else result_test_failed

pub record CrKey : Type 0 where
  pub kind : Kind
  pub name : NamespacedName

abbrev key_beq : CrKey → CrKey → Bool
key_beq a b = a.kind == b.kind && a.name == b.name

pub key_beq_iff : (a b : CrKey) → (key_beq a b ≡ true) ↔ (a ≡ b)
key_beq_iff a b = ground (arith, str_beq_iff a.kind b.kind, name_beq_iff a.name b.name)

instance abbrev pub key_eq : Eq CrKey
key_eq = record { beq = key_beq; beq_iff = key_beq_iff }

pub data Effect : Type 0 where
  probe_transition : NamespacedName → Kind → Result → Result → Effect
  test_transition : NamespacedName → Kind → Result → Result → Effect
  heartbeat_received : NamespacedName → String → Effect
  result_received : Kind → NamespacedName → Effect
  parse_failed : Effect

abbrev pub crkey : Kind → NamespacedName → CrKey
crkey kind name = record { kind = kind; name = name }

-- if cb != nil && prev != next { cb(…) }
unfoldable pub notify : Bool → Result → Result → Effect → List Effect
notify set prev next call = if set && not (prev == next) then call ∷ [] else []

abbrev pub exists {ℓ} : {A : Type ℓ} → Option A → Bool
exists none = false
exists (some _) = true

abbrev ping_outcome : Bool → String
ping_outcome failed = if failed then "failed" else "ok"

module _ (F : Float64) where
  open F use {Float, of_int}

  unfoldable pub success_value : Result → Float
  success_value r = if r == result_ok then of_int (pos 1) else of_int (pos 0)

  pub record ProbeState : Type 0 where
    pub kind : Kind
    pub result : Result
    pub failed_assertion : String
    pub duration_milliseconds : Float
    pub last_run_timestamp : Float
    pub http_status_code : Float
    pub http_version : Float
    pub url : String
    pub method : String
    pub tls_cert_expiry : Float
    pub http_phase_dns_ms : Float
    pub http_phase_connect_ms : Float
    pub http_phase_tls_ms : Float
    pub http_phase_processing_ms : Float
    pub http_phase_transfer_ms : Float
    pub assertion_results : List (AssertionResult F)
    pub dns_query_name : String
    pub dns_resolver : String
    pub dns_first_answer_value : String
    pub dns_first_answer_type : String
    pub dns_answer_count : Float
    pub dns_authority_count : Float
    pub dns_additional_count : Float
    pub tcp_host : Bytes
    pub tcp_port : ℤ

  pub record TestState : Type 0 where
    pub kind : Kind
    pub result : Result
    pub duration_milliseconds : Float
    pub last_run_timestamp : Float
    pub playwright_tests : List TestCase

  -- The callbacks are fields that may be nil; here, whether they are set.
  pub record Store : Type 0 where
    pub probes : Dict CrKey ProbeState
    pub tests : Dict CrKey TestState
    pub heartbeats : Dict CrKey (State F)
    pub depends : Dict CrKey (List DependencyRef)
    pub metric_labels : Dict CrKey (Dict String String)
    pub on_probe_transition : Bool
    pub on_test_transition : Bool

  -- NewStore.
  abbrev pub new_store : Store
  new_store = record {
    probes = [];
    tests = [];
    heartbeats = [];
    depends = [];
    metric_labels = [];
    on_probe_transition = false;
    on_test_transition = false;
  }

  abbrev pub probe_result : Option ProbeState → Result
  probe_result none = never_run
  probe_result (some prev) = prev.result

  abbrev pub test_result : Option TestState → Result
  test_result none = never_run
  test_result (some prev) = prev.result

  unfoldable pub upsert : NamespacedName → ProbeState → Store → Store × List Effect
  unfolding notify
  upsert name state s =
      let key = crkey state.kind name in
      let prev = probe_result (lookup key s.probes) in
      (
        record s { probes = insert key state s.probes },
        notify s.on_probe_transition prev state.result
            (probe_transition name state.kind prev state.result),
      )

  unfoldable pub upsert_test : NamespacedName → TestState → Store → Store × List Effect
  unfolding notify
  upsert_test name state s =
      let key = crkey state.kind name in
      let prev = test_result (lookup key s.tests) in
      (
        record s { tests = insert key state s.tests },
        notify s.on_test_transition prev state.result
            (test_transition name state.kind prev state.result),
      )

  unfoldable pub delete : Kind → NamespacedName → Store → Store
  delete kind name s =
      let key = crkey kind name in
      record s {
        probes = erase key s.probes;
        tests = erase key s.tests;
        heartbeats = erase key s.heartbeats;
      }

  unfoldable pub set_depends : Kind → NamespacedName → List DependencyRef → Store → Store
  set_depends kind name [] s = record s { depends = erase (crkey kind name) s.depends }
  set_depends kind name (dep ∷ deps) s = record s {
    depends = insert (crkey kind name) (dep ∷ deps) s.depends;
  }

  unfoldable pub clear_depends : Kind → NamespacedName → Store → Store
  clear_depends kind name s = record s { depends = erase (crkey kind name) s.depends }

  unfoldable pub set_metric_labels : Kind → NamespacedName → Dict String String → Store → Store
  set_metric_labels kind name [] s = record s {
    metric_labels = erase (crkey kind name) s.metric_labels;
  }
  set_metric_labels kind name (label ∷ labels) s = record s {
    metric_labels = insert (crkey kind name) (label ∷ labels) s.metric_labels;
  }

  unfoldable pub clear_metric_labels : Kind → NamespacedName → Store → Store
  clear_metric_labels kind name s = record s {
    metric_labels = erase (crkey kind name) s.metric_labels;
  }

  unfoldable pub record_test_result :
      NamespacedName → Kind → Bool → ℤ → Float → Store → Store × List Effect
  record_test_result name kind success duration_ms ts s =
      let (s', effects) =
        upsert_test name
          (record {
            kind = kind;
            result = result_from_success success;
            duration_milliseconds = of_int duration_ms;
            last_run_timestamp = ts;
            playwright_tests = [];
          })
          s in
      (s', result_received kind name ∷ effects)

  unfoldable pub record_playwright_result :
      NamespacedName → Bool → ℤ → Float → List TestCase → Store → Store × List Effect
  record_playwright_result name success duration_ms ts tests s =
      let (s', effects) =
        upsert_test name
          (record {
            kind = kind_playwright_test;
            result = result_from_success success;
            duration_milliseconds = of_int duration_ms;
            last_run_timestamp = ts;
            playwright_tests = tests;
          })
          s in
      (s', result_received kind_playwright_test name ∷ effects)

  unfoldable pub record_parse_failure : Store → Store × List Effect
  record_parse_failure s = (s, parse_failed ∷ [])

  abbrev pub heartbeat_or_zero : Option (State F) → State F
  heartbeat_or_zero none = zero_state F
  heartbeat_or_zero (some state) = state

  unfoldable pub set_heartbeat_spec :
      NamespacedName → Float → Float → Bool → Float → Bool → Store → Store
  set_heartbeat_spec name period_seconds grace_seconds suspend seed_ping_unix seed_failed s =
      let key = crkey kind_heartbeat name in
      let live = lookup key s.heartbeats in
      let state =
        apply_spec F (heartbeat_or_zero live) (exists live) period_seconds grace_seconds suspend
          (record { last_ping_unix = seed_ping_unix; failed = seed_failed }) in
      record s { heartbeats = insert key state s.heartbeats }

  -- `now` is the store's clock.
  unfoldable pub record_heartbeat_ping :
      NamespacedName → Bool → ℤ → Float → Time → Store → Store × List Effect
  unfolding notify
  record_heartbeat_ping name failed exit_code received_unix now s =
      let key = crkey kind_heartbeat name in
      let before = heartbeat_or_zero (lookup key s.heartbeats) in
      let after = record_ping F before failed exit_code received_unix in
      let previous = heartbeat_result (evaluate F before now) in
      let next = heartbeat_result (evaluate F after now) in
      (
        record s { heartbeats = insert key after s.heartbeats },
        heartbeat_received name (ping_outcome failed)
            ∷ notify s.on_probe_transition previous next
                (probe_transition name kind_heartbeat previous next),
      )

  unfoldable pub snapshot : Kind → NamespacedName → Store → Option ProbeState
  snapshot kind name s = lookup (crkey kind name) s.probes

  unfoldable pub snapshot_test : Kind → NamespacedName → Store → Option TestState
  snapshot_test kind name s = lookup (crkey kind name) s.tests

  unfoldable pub snapshot_heartbeat : NamespacedName → Store → Option (State F)
  snapshot_heartbeat name s = lookup (crkey kind_heartbeat name) s.heartbeats
