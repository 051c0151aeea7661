-- ===== src/Executors/Tests.antt =====
-- Runs of the executors, and witnesses of their theorems.
use synthetics_operator.Shared.{
  leb_ℤ, refl, true, false, not, none, some, [], codes, bytes_beq, pos, ◌≡◌, ◌≢◌, ◌↔◌, ◌==◌,
  string_eq, bytes_eq, nat_eq,
}
use synthetics_operator.Shared.Strings.{trim_space, drop_space, space_width, space_width_end}
use synthetics_operator.Float.Exact.{exact, number, digits}
use synthetics_operator.Results.{ProbeJob, Time, TcpProbeSpecPayload, DnsProbeSpecPayload}
use synthetics_operator.Specs.{
  tcp_probe_spec_update, dns_probe_spec_update, http_probe_spec_update, to_assertions,
  to_depends_refs, milliseconds,
}
use synthetics_operator.Assertions.{
  eval_tcp_assertions, eval_in_context, eval_assertions, eval_loop, eval_assertion,
  split_assertion_expr, try_candidates, after_prefix, compare_by, cut, tcp_context,
}
use synthetics_operator.Assertions.Verdicts.{all_pass}
use synthetics_operator.Shared.Dict.{lookup}
use synthetics_operator.Webhooks.{is_blank, to_upper}
use synthetics_operator.Webhooks.Examples.{
  checks, http_probe, tcp_probe, dns_probe, dns_probe_admitted,
}
use synthetics_operator.Executors.{
  NetError, run_timeout, is_tls_error, classify_http_transport, classify_tcp_connect,
  config_error_result, probe_result,
}
use synthetics_operator.Executors.Tcp.{TcpNet, execute_tcp, run_tcp, connect}
use synthetics_operator.Executors.Dns.{DnsNet, execute_dns, run_dns, execute_query}
use synthetics_operator.Executors.Http.{
  HttpNet, transport_error, execute_http, run_http, execute_request,
}
use synthetics_operator.Executors.Verdict.{IsClass, execute-IsClass}
use synthetics_operator.Executors.Config.{IsTarget, run_tcp-ok_iff}
use synthetics_operator.Executors.Queries.{IsQuery, Settled, run_dns-ok_iff}
use synthetics_operator.Executors.Dns.{type_or_a, resolver_or_system}
use synthetics_operator.Executors.Admitted.{Agrees, job_of, validate_dns_probe-runs}

unfoldable pub running : Unit {0}
unfolding execute_tcp run_tcp execute_dns run_dns execute_http run_http tcp_probe_spec_update
    dns_probe_spec_update http_probe_spec_update connect execute_query execute_request
    classify_http_transport classify_tcp_connect is_tls_error bytes_beq trim_space drop_space
    space_width space_width_end to_assertions eval_tcp_assertions eval_in_context eval_assertions
    eval_loop eval_assertion split_assertion_expr try_candidates after_prefix compare_by cut
    config_error_result probe_result run_timeout lookup to_depends_refs is_blank to_upper number
    digits
running = tt

abbrev pub noon : Time
noon = record { unix = pos 43200; nsec = 0 }

-- A dial or a request that is refused.
abbrev refused : NetError
refused = record {
  is_dns_error = false;
  is_verification_error = false;
  is_unknown_authority = false;
  is_certificate_invalid = false;
  is_hostname_error = false;
  op_error = some ("dial", false);
  net_error = some false;
  is_deadline_exceeded = false;
  is_connection_refused = true;
}

-- A host that accepts connections, and one that refuses them; each answers after 20 milliseconds.
abbrev open_net : TcpNet
open_net = record { dial = λ timeout host port. none; elapsed = pos 20000000 }

abbrev pub closed_net : TcpNet
closed_net = record { dial = λ timeout host port. some refused; elapsed = pos 20000000 }

-- A resolver that is asked too late.
abbrev pub late_net : DnsNet
late_net = record {
  is_type = λ type. not (type == []);
  split_host_port = checks.split_host_port;
  remaining = λ timeout. pos 0;
  exchange = λ name type resolver. none;
  trim_dot = λ name. name;
  join_spaces = λ parts. "";
  after_fields = λ text. text;
  elapsed = pos 20000000;
}

abbrev pub refusing_net : HttpNet exact
refusing_net = record {
  parse_url = checks.parse_url;
  upper = λ method. method;
  is_request = λ method url. true;
  has_certificates = λ pem. false;
  send = λ timeout request. transport_error refused;
  elapsed = pos 20000000;
  days_until = λ t. pos 0;
}

abbrev pub tcp_job : ProbeJob
tcp_job = job_of exact checks (tcp_probe_spec_update tcp_probe) noon

abbrev pub dns_job : ProbeJob
dns_job = job_of exact checks (dns_probe_spec_update dns_probe) noon

abbrev http_job : ProbeJob
http_job = job_of exact checks (http_probe_spec_update http_probe []) noon

tcp_runs :
    ((execute_tcp exact open_net tcp_job).result ≡ "ok")
    × ((execute_tcp exact closed_net tcp_job).result ≡ "connect_refused")
unfolding running
tcp_runs = (refl, refl)

dns_runs : (execute_dns exact late_net dns_job).result ≡ "ok"
unfolding running
dns_runs = refl

http_runs : (execute_http exact refusing_net http_job).result ≡ "connect_refused"
unfolding running
http_runs = refl

execute-IsClass_example :
    IsClass (execute_tcp exact closed_net tcp_job).result
    × IsClass (execute_dns exact late_net tcp_job).result
    × IsClass (execute_http exact refusing_net tcp_job).result
execute-IsClass_example = execute-IsClass exact closed_net late_net refusing_net tcp_job

abbrev tcp_payload : TcpProbeSpecPayload
tcp_payload = record {
  timeout_ms = pos 10000;
  host = codes "db.ns";
  port = pos 5432;
  assertions = to_assertions tcp_probe.assertions;
}

run_tcp-ok_iff_example : ((run_tcp exact open_net tcp_job (some tcp_payload)).result ≡ "ok") ↔ (
    IsTarget tcp_payload.host tcp_payload.port
    × (open_net.dial
          (run_timeout tcp_payload.timeout_ms)
          (trim_space tcp_payload.host)
          tcp_payload.port
        ≡ none)
    × (all_pass exact
          (tcp_context exact (exact.of_int (milliseconds open_net.elapsed)))
          tcp_payload.assertions
        ≡ true))
run_tcp-ok_iff_example = run_tcp-ok_iff exact open_net tcp_job tcp_payload

abbrev dns_payload : DnsProbeSpecPayload
dns_payload = record {
  timeout_ms = pos 10000;
  name = "example.com";
  type = "mx";
  resolver = "";
  assertions = [];
}

run_dns-ok_iff_example : ((run_dns exact late_net dns_job (some dns_payload)).result ≡ "ok") ↔ (
    IsQuery exact late_net dns_payload
    × Settled exact late_net dns_payload.assertions
        (leb_ℤ (late_net.remaining (run_timeout dns_payload.timeout_ms)) (pos 0))
        (late_net.exchange dns_payload.name
          (type_or_a (to_upper (codes dns_payload.type)))
          (resolver_or_system dns_payload.resolver)))
run_dns-ok_iff_example = run_dns-ok_iff exact late_net dns_job dns_payload

agrees : Agrees exact checks late_net
unfolding running
agrees = record {
  known = (refl, (refl, (refl, (refl, (refl, (refl, (refl, tt)))))));
  split = λ resolver. refl;
  system = refl;
}

validate_dns_probe-runs_example :
    (execute_dns exact late_net (job_of exact checks (dns_probe_spec_update dns_probe) noon)).result
    ≢ "config_error"
validate_dns_probe-runs_example =
    validate_dns_probe-runs exact checks dns_probe late_net noon agrees dns_probe_admitted
