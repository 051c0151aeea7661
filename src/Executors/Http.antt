-- ===== src/Executors/Http.antt =====
-- internal/probes/http_executor.go.
use synthetics_operator.Shared.{
  String, Bool, true, false, not, Option, none, some, [], Bytes, ℤ, pos, ◌||◌, ◌==◌, string_eq,
  bytes_eq, nat_eq, if◌then◌else◌,
}
use synthetics_operator.Shared.Dict.{Dict}
use synthetics_operator.Float.{Float64}
use synthetics_operator.Results.{
  Time, since, TlsConfig, ProbeJob, ProbeResult, HttpProbeSpecPayload,
}
use synthetics_operator.Specs.{milliseconds}
use synthetics_operator.Assertions.{eval_http_assertions}
use synthetics_operator.Webhooks.{Url}
use synthetics_operator.Executors.{
  NetError, classify_http_transport, run_timeout, probe_result, config_error_result, verdict_of,
  with_verdict,
}

-- The instants that the trace records, none where a phase was not reached.
pub record Trace : Type 0 where
  pub dns_start : Option Time
  pub dns_done : Option Time
  pub connect_start : Option Time
  pub connect_done : Option Time
  pub tls_start : Option Time
  pub tls_done : Option Time
  pub wrote_request : Option Time
  pub first_byte : Option Time
  pub transfer_start : Time
  pub transfer_end : Time

pub record HttpResponse : Type 0 where
  pub status_code : ℤ
  pub proto : String
  -- NotAfter of the first peer certificate
  pub not_after : Option Time
  pub trace : Trace

pub record HttpRequest : Type 0 where
  pub url : String
  pub method : String
  pub headers : Dict String Bytes
  pub body : Bytes
  pub tls : Option TlsConfig

pub data Answer : Type 0 where
  response : HttpResponse → Answer
  transport_error : NetError → Answer

module _ (F : Float64) where
  open F use {Float, of_int, div}

  pub record HttpNet : Type 0 where
    -- url.Parse
    pub parse_url : String → Option Url
    -- strings.ToUpper
    pub upper : String → String
    -- http.NewRequestWithContext takes a method and an URL
    pub is_request : String → String → Bool
    -- AppendCertsFromPEM of a new pool
    pub has_certificates : Bytes → Bool
    -- Client.Do under a timeout
    pub send : ℤ → HttpRequest → Answer
    -- time.Since(start), at the return
    pub elapsed : ℤ
    -- time.Until(t).Hours() / 24
    pub days_until : Time → Float

  pub record HttpResult : Type 0 where
    pub config_error : Bool
    pub transport_err : Option NetError
    pub status_code : ℤ
    pub http_version : Float
    pub duration : ℤ
    pub cert_expiry_time : Option Time
    pub phase_dns_ms : Float
    pub phase_connect_ms : Float
    pub phase_tls_ms : Float
    pub phase_processing_ms : Float
    pub phase_transfer_ms : Float

  abbrev without_response : Bool → Option NetError → ℤ → HttpResult
  without_response config_error transport_err duration = record {
    config_error = config_error;
    transport_err = transport_err;
    status_code = pos 0;
    http_version = of_int (pos 0);
    duration = duration;
    cert_expiry_time = none;
    phase_dns_ms = of_int (pos 0);
    phase_connect_ms = of_int (pos 0);
    phase_tls_ms = of_int (pos 0);
    phase_processing_ms = of_int (pos 0);
    phase_transfer_ms = of_int (pos 0);
  }

  abbrev ms_diff : Option Time → Option Time → Float
  ms_diff none b = of_int (pos 0)
  ms_diff (some a) none = of_int (pos 0)
  ms_diff (some a) (some b) = of_int (milliseconds (since b a))

  -- Either spelling, with the prefix or without it. The float64 of 1.1 is the quotient of 11 and 10.
  abbrev is_version : String → String → String → Bool
  is_version proto bare prefixed = proto == bare || proto == prefixed

  unfoldable pub parse_http_version : String → Float
  parse_http_version proto =
      if is_version proto "1.0" "HTTP/1.0"
      then of_int (pos 1)
      else if is_version proto "1.1" "HTTP/1.1"
      then div (of_int (pos 11)) (of_int (pos 10))
      else if is_version proto "2" "HTTP/2" || is_version proto "2.0" "HTTP/2.0"
      then of_int (pos 2)
      else if is_version proto "3" "HTTP/3" || is_version proto "3.0" "HTTP/3.0"
      then of_int (pos 3)
      else of_int (pos 0)

  abbrev is_absolute : Option Url → Bool
  is_absolute none = false
  is_absolute (some u) = not (u.scheme == "" || u.host == "")

  abbrev of_answer : ℤ → Answer → HttpResult
  of_answer elapsed (transport_error err) = without_response false (some err) elapsed
  of_answer elapsed (response resp) = record {
    config_error = false;
    transport_err = none;
    status_code = resp.status_code;
    http_version = parse_http_version resp.proto;
    duration = elapsed;
    cert_expiry_time = resp.not_after;
    phase_dns_ms = ms_diff resp.trace.dns_start resp.trace.dns_done;
    phase_connect_ms = ms_diff resp.trace.connect_start resp.trace.connect_done;
    phase_tls_ms = ms_diff resp.trace.tls_start resp.trace.tls_done;
    phase_processing_ms = ms_diff resp.trace.wrote_request resp.trace.first_byte;
    phase_transfer_ms =
        of_int (milliseconds (since resp.trace.transfer_end resp.trace.transfer_start));
  }

  module _ (net : HttpNet) where
    -- Whether buildTLSClient makes a client.
    abbrev is_tls_client : Option TlsConfig → Bool
    is_tls_client none = true
    is_tls_client (some tls) = tls.ca_cert == [] || net.has_certificates tls.ca_cert

    unfoldable pub execute_request : ℤ → HttpRequest → HttpResult
    execute_request timeout request =
        if not (is_absolute (net.parse_url request.url))
        then without_response true none net.elapsed
        else if not (net.is_request (net.upper request.method) request.url)
        then without_response true none net.elapsed
        else if not (is_tls_client request.tls)
        then without_response true none net.elapsed
        else of_answer net.elapsed
            (net.send timeout (record request { method = net.upper request.method }))

    abbrev pub http_failure : HttpResult → Option String
    http_failure raw = elim raw.transport_err [
      | none ↦ none
      | some err ↦ some (classify_http_transport err)
    ]

    abbrev expiry_unix : Option Time → ℤ
    expiry_unix none = pos 0
    expiry_unix (some t) = t.unix

    abbrev pub expiry_days : Option Time → Option Float
    expiry_days none = none
    expiry_days (some t) = some (net.days_until t)

    abbrev http_outcome : ProbeJob → HttpProbeSpecPayload → HttpResult → ProbeResult F
    http_outcome job payload raw =
        with_verdict F
          (verdict_of F raw.config_error (http_failure raw) payload.assertions (
            eval_http_assertions F raw.status_code (milliseconds raw.duration)
              (expiry_days raw.cert_expiry_time) payload.assertions))
          (record (probe_result F job) {
            duration_ms = milliseconds raw.duration;
            url = payload.url;
            method = net.upper payload.method;
            http_status_code = raw.status_code;
            http_version = raw.http_version;
            http_phase_dns_ms = raw.phase_dns_ms;
            http_phase_connect_ms = raw.phase_connect_ms;
            http_phase_tls_ms = raw.phase_tls_ms;
            http_phase_processing_ms = raw.phase_processing_ms;
            http_phase_transfer_ms = raw.phase_transfer_ms;
            tls_cert_expiry_unix = expiry_unix raw.cert_expiry_time;
          })

    abbrev pub request_of : HttpProbeSpecPayload → HttpRequest
    request_of payload = record {
      url = payload.url;
      method = payload.method;
      headers = payload.headers;
      body = payload.body;
      tls = payload.tls;
    }

    -- Execute, by the payload of the job.
    unfoldable pub run_http : ProbeJob → Option HttpProbeSpecPayload → ProbeResult F
    run_http job none = config_error_result F job
    run_http job (some payload) =
        http_outcome job payload
          (execute_request (run_timeout payload.timeout_ms) (request_of payload))

    unfoldable pub execute_http : ProbeJob → ProbeResult F
    execute_http job = run_http job job.spec.http_probe
