-- ===== src/Executors/Tcp.antt =====
-- internal/probes/tcp_executor.go.
use synthetics_operator.Shared.{
  String, Bool, true, false, Option, none, some, [], Bytes, ℤ, pos, ltb_ℤ, ◌||◌, ◌==◌, string_eq,
  bytes_eq, nat_eq, if◌then◌else◌,
}
use synthetics_operator.Shared.Strings.{trim_space}
use synthetics_operator.Float.{Float64}
use synthetics_operator.Results.{ProbeJob, ProbeResult, TcpProbeSpecPayload}
use synthetics_operator.Specs.{milliseconds}
use synthetics_operator.Assertions.{eval_tcp_assertions}
use synthetics_operator.Executors.{
  NetError, classify_tcp_connect, run_timeout, probe_result, config_error_result, verdict_of,
  with_verdict,
}

pub record TcpNet : Type 0 where
  -- Dialer.DialContext under a timeout; none is a connection
  pub dial : ℤ → Bytes → ℤ → Option NetError
  -- time.Since(start), at the return
  pub elapsed : ℤ

pub record TcpResult : Type 0 where
  pub config_error : Bool
  pub connect_err : Option NetError
  pub duration : ℤ

unfoldable pub connect : TcpNet → ℤ → Bytes → ℤ → TcpResult
connect net timeout host port =
    if trim_space host == [] || ltb_ℤ port (pos 1) || ltb_ℤ (pos 65535) port
    then record { config_error = true; connect_err = none; duration = net.elapsed }
    else record {
      config_error = false;
      connect_err = net.dial timeout (trim_space host) port;
      duration = net.elapsed;
    }

abbrev pub tcp_failure : TcpResult → Option String
tcp_failure raw = elim raw.connect_err [ none ↦ none | some err ↦ some (classify_tcp_connect err) ]

module _ (F : Float64) (net : TcpNet) where
  abbrev tcp_outcome : ProbeJob → TcpProbeSpecPayload → TcpResult → ProbeResult F
  tcp_outcome job payload raw =
      with_verdict F
        (verdict_of F raw.config_error (tcp_failure raw) payload.assertions
          (eval_tcp_assertions F (milliseconds raw.duration) payload.assertions))
        (record (probe_result F job) {
          duration_ms = milliseconds raw.duration;
          tcp_host = payload.host;
          tcp_port = payload.port;
        })

  -- Execute, by the payload of the job.
  unfoldable pub run_tcp : ProbeJob → Option TcpProbeSpecPayload → ProbeResult F
  run_tcp job none = config_error_result F job
  run_tcp job (some payload) =
      tcp_outcome job payload
        (connect net (run_timeout payload.timeout_ms) payload.host payload.port)

  unfoldable pub execute_tcp : ProbeJob → ProbeResult F
  execute_tcp job = run_tcp job job.spec.tcp_probe
