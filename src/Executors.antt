-- ===== src/Executors.antt =====
-- internal/probes/executor.go, and the classification of errors in http_executor.go and
-- tcp_executor.go. The executors are in the children: what the network answers is a parameter there,
-- and so are the functions of Go's net, net/http, net/url and crypto/x509, and of miekg/dns. The
-- fields Message and Completed of a raw result are never read, and are left out.
pub mod Http
pub mod Dns
pub mod Tcp
pub mod Config
pub mod Queries
pub mod Verdict
pub mod Admitted
pub mod Tests
use synthetics_operator.Shared.{
  zero, suc, String, Bool, false, Option, none, some, List, [], ℤ, pos, negsuc, ◌*◌, ◌||◌, ◌∷◌,
  ◌==◌, string_eq, bytes_eq, nat_eq, if◌then◌else◌,
}
use synthetics_operator.Shared.Strings.{trim_space}
use synthetics_operator.Float.{Float64}
use synthetics_operator.Results.{ProbeJob, ProbeResult, AssertionResult, Assertion}
use synthetics_operator.Shared.Dict.{}
use synthetics_operator.Specs.{milliseconds}
use synthetics_operator.Assertions.{eval_http_assertions, eval_dns_assertions, eval_tcp_assertions}
use synthetics_operator.Webhooks.{Url, to_upper, is_blank}

-- What errors.As and errors.Is find in an error, and what its parts answer.
pub record NetError : Type 0 where
  pub is_dns_error : Bool
  -- the four kinds of isTLSError
  pub is_verification_error : Bool
  pub is_unknown_authority : Bool
  pub is_certificate_invalid : Bool
  pub is_hostname_error : Bool
  -- *net.OpError: Op and Timeout()
  pub op_error : Option (String × Bool)
  -- net.Error: Timeout()
  pub net_error : Option Bool
  pub is_deadline_exceeded : Bool
  pub is_connection_refused : Bool

unfoldable pub is_tls_error : NetError → Bool
is_tls_error err =
    err.is_verification_error || err.is_unknown_authority || err.is_certificate_invalid
    || err.is_hostname_error

abbrev pub after_op : NetError → String
after_op err = if err.is_deadline_exceeded then "recv_timeout" else "connect_refused"

abbrev pub classify_op : NetError → Option (String × Bool) → String
classify_op err none = after_op err
classify_op err (some (op, timeout)) =
    if op == "dial"
    then (if timeout then "connect_timeout" else "connect_refused")
    else if op == "read"
    then "recv_timeout"
    else after_op err

unfoldable pub classify_http_transport : NetError → String
classify_http_transport err =
    if err.is_dns_error
    then "dns_failed"
    else if is_tls_error err
    then "tls_failed"
    else classify_op err err.op_error

abbrev pub is_timeout : Option Bool → Bool
is_timeout none = false
is_timeout (some timeout) = timeout

unfoldable pub classify_tcp_connect : NetError → String
classify_tcp_connect err =
    if err.is_dns_error
    then "dns_failed"
    else if err.is_deadline_exceeded || is_timeout err.net_error
    then "connect_timeout"
    else if err.is_connection_refused
    then "connect_refused"
    else "connect_failed"

abbrev default_probe_timeout : ℤ
default_probe_timeout = pos 10000000000

-- The timeout of runContext.
unfoldable pub run_timeout : ℤ → ℤ
run_timeout (pos zero) = default_probe_timeout
run_timeout (pos (suc ms)) = pos (suc ms * 1000000)
run_timeout (negsuc n) = default_probe_timeout

module _ (F : Float64) where
  open F use {of_int}

  -- probeResult: the job's identity, and the zero values of all else.
  unfoldable pub probe_result : ProbeJob → ProbeResult F
  probe_result job = record {
    kind = job.spec.kind;
    name = job.spec.name;
    namespace = job.spec.namespace;
    generation = job.spec.generation;
    timestamp = job.scheduled_at;
    duration_ms = pos 0;
    result = "";
    failed_assertion = "";
    http_status_code = pos 0;
    http_version = of_int (pos 0);
    url = "";
    method = "";
    tls_cert_expiry_unix = pos 0;
    http_phase_dns_ms = of_int (pos 0);
    http_phase_connect_ms = of_int (pos 0);
    http_phase_tls_ms = of_int (pos 0);
    http_phase_processing_ms = of_int (pos 0);
    http_phase_transfer_ms = of_int (pos 0);
    assertion_results = [];
    dns_query_name = "";
    dns_resolver = "";
    dns_first_answer_value = "";
    dns_first_answer_type = "";
    dns_answer_count = pos 0;
    dns_authority_count = pos 0;
    dns_additional_count = pos 0;
    tcp_host = [];
    tcp_port = pos 0;
  }

  unfoldable pub config_error_result : ProbeJob → ProbeResult F
  unfolding probe_result
  config_error_result job = record (probe_result job) { result = "config_error" }

  -- The result, the failed assertion and the assertions' results of the switch that ends Execute.
  abbrev pub Verdict : Type 0
  Verdict = String × String × List (AssertionResult F)

  abbrev pub verdict_of : Bool → Option String → List Assertion → Verdict → Verdict
  verdict_of config_error failure assertions evaluated =
      if config_error then ("config_error", "", []) else elim failure [
        | some class ↦ (class, "", [])
        | none ↦ elim assertions [ [] ↦ ("ok", "", []) | _ ∷ _ ↦ evaluated ]
      ]

  abbrev pub with_verdict : Verdict → ProbeResult F → ProbeResult F
  with_verdict (result, failed, out) r = record r {
    result = result;
    failed_assertion = failed;
    assertion_results = out;
  }
