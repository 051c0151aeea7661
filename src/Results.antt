-- ===== src/Results.antt =====
-- internal/results/message.go: the wire types carried between the deployments. A Go pointer that
-- may be nil and a Go error are `Option`, a slice is `List`, a map is `Dict`. Strings that the
-- program walks (tokens, bodies, assertion expressions) are byte lists; the others are only
-- compared.
use synthetics_operator.Shared.{
  ℕ, suc, String, Bool, true, Option, List, arith, Eq, str_beq_iff, Bytes, ℤ, pos, negsuc, sub_ℕ,
  ◌+◌, ◌*◌, ◌≡◌, ◌↔◌, ◌&&◌, ◌==◌, ◌-ℤ◌, string_eq, bytes_eq, nat_eq,
}
use synthetics_operator.Shared.Dict.{Dict}
use synthetics_operator.Float.{Float64}

-- Kind is a string on the wire, and may be none of the constants.
abbrev pub Kind : Type 0
Kind = String

abbrev pub kind_http_probe : Kind
kind_http_probe = "HTTPProbe"

abbrev pub kind_dns_probe : Kind
kind_dns_probe = "DNSProbe"

abbrev pub kind_tcp_probe : Kind
kind_tcp_probe = "TCPProbe"

abbrev pub kind_k6_test : Kind
kind_k6_test = "K6Test"

abbrev pub kind_playwright_test : Kind
kind_playwright_test = "PlaywrightTest"

abbrev pub kind_heartbeat : Kind
kind_heartbeat = "Heartbeat"

-- time.Time: seconds since the Unix epoch, and nanoseconds within the second.
pub record Time : Type 0 where
  pub unix : ℤ
  pub nsec : ℕ

-- The nanosecond of a time, and the duration between two times.
abbrev pub nanos : Time → ℤ
nanos t = elim t.unix [
  | pos n ↦ pos (n * 1000000000 + t.nsec)
  | negsuc n ↦ sub_ℕ t.nsec (suc n * 1000000000)
]

abbrev pub since : Time → Time → ℤ
since at previous = nanos at -ℤ nanos previous

-- types.NamespacedName
pub record NamespacedName : Type 0 where
  pub namespace : String
  pub name : String

abbrev pub name_beq : NamespacedName → NamespacedName → Bool
name_beq a b = a.namespace == b.namespace && a.name == b.name

pub name_beq_iff : (a b : NamespacedName) → (name_beq a b ≡ true) ↔ (a ≡ b)
name_beq_iff a b = ground (arith, str_beq_iff a.namespace b.namespace, str_beq_iff a.name b.name)

instance abbrev pub name_eq : Eq NamespacedName
name_eq = record { beq = name_beq; beq_iff = name_beq_iff }

pub record DependencyRef : Type 0 where
  pub kind : Kind
  pub name : String

abbrev ref_beq : DependencyRef → DependencyRef → Bool
ref_beq a b = a.kind == b.kind && a.name == b.name

pub ref_beq_iff : (a b : DependencyRef) → (ref_beq a b ≡ true) ↔ (a ≡ b)
ref_beq_iff a b = ground (arith, str_beq_iff a.kind b.kind, str_beq_iff a.name b.name)

instance abbrev pub ref_eq : Eq DependencyRef
ref_eq = record { beq = ref_beq; beq_iff = ref_beq_iff }

pub record Assertion : Type 0 where
  pub name : String
  pub expr : Bytes

pub record TlsConfig : Type 0 where
  pub insecure_skip_verify : Bool
  pub ca_cert : Bytes

pub record HttpProbeSpecPayload : Type 0 where
  pub timeout_ms : ℤ
  pub url : String
  pub method : String
  pub headers : Dict String Bytes
  pub body : Bytes
  pub tls : Option TlsConfig
  pub assertions : List Assertion

pub record DnsProbeSpecPayload : Type 0 where
  pub timeout_ms : ℤ
  pub name : String
  pub type : String
  pub resolver : String
  pub assertions : List Assertion

pub record TcpProbeSpecPayload : Type 0 where
  pub timeout_ms : ℤ
  pub host : Bytes
  pub port : ℤ
  pub assertions : List Assertion

pub record HeartbeatSpecPayload : Type 0 where
  pub token : Bytes
  pub period_ms : ℤ
  pub grace_ms : ℤ
  pub last_ping_unix : ℤ
  pub last_result : String

pub record HeartbeatPing : Type 0 where
  pub name : String
  pub namespace : String
  pub received_at : Time
  pub failed : Bool
  pub exit_code : ℤ
  pub output : Bytes

pub record SpecUpdate : Type 0 where
  pub kind : Kind
  pub name : String
  pub namespace : String
  pub generation : ℤ
  pub deleted : Bool
  pub suspend : Bool
  pub interval_ms : ℤ
  pub depends : List DependencyRef
  pub metric_labels : Dict String String
  pub http_probe : Option HttpProbeSpecPayload
  pub dns_probe : Option DnsProbeSpecPayload
  pub tcp_probe : Option TcpProbeSpecPayload
  pub heartbeat : Option HeartbeatSpecPayload

pub record ProbeJob : Type 0 where
  pub spec : SpecUpdate
  pub scheduled_at : Time

pub record TestCase : Type 0 where
  pub suite : String
  pub test : String
  pub passed : Bool
  pub duration_ms : ℤ

pub record TestResult : Type 0 where
  pub kind : Kind
  pub name : String
  pub namespace : String
  pub success : Bool
  pub timestamp : Time
  pub duration_ms : ℤ
  pub tests : List TestCase

module _ (F : Float64) where
  open F use {Float}

  pub record AssertionResult : Type 0 where
    pub name : String
    pub expr : Bytes
    pub result : Float

  pub record ProbeResult : Type 0 where
    pub kind : Kind
    pub name : String
    pub namespace : String
    pub generation : ℤ
    pub timestamp : Time
    pub duration_ms : ℤ
    pub result : String
    pub failed_assertion : String
    pub http_status_code : ℤ
    pub http_version : Float
    pub url : String
    pub method : String
    pub tls_cert_expiry_unix : ℤ
    pub http_phase_dns_ms : Float
    pub http_phase_connect_ms : Float
    pub http_phase_tls_ms : Float
    pub http_phase_processing_ms : Float
    pub http_phase_transfer_ms : Float
    pub assertion_results : List AssertionResult
    pub dns_query_name : String
    pub dns_resolver : String
    pub dns_first_answer_value : String
    pub dns_first_answer_type : String
    pub dns_answer_count : ℤ
    pub dns_authority_count : ℤ
    pub dns_additional_count : ℤ
    pub tcp_host : Bytes
    pub tcp_port : ℤ
