-- ===== src/Prober.antt =====
-- internal/prober/worker.go: which executor runs a job, and what is published. An error of the
-- publication is only logged, and the published message is what a job makes here.
pub mod Delivery
mod Tests
use synthetics_operator.Shared.{
  Option, none, some, List, [], ◌∷◌, ◌==◌, string_eq, bytes_eq, nat_eq, if◌then◌else◌,
}
use synthetics_operator.Float.{Float64}
use synthetics_operator.Results.{
  Kind, kind_http_probe, kind_dns_probe, kind_tcp_probe, ProbeJob, ProbeResult,
}
use synthetics_operator.Executors.Tcp.{TcpNet, execute_tcp}
use synthetics_operator.Executors.Dns.{DnsNet, execute_dns}
use synthetics_operator.Executors.Http.{HttpNet, execute_http}
use synthetics_operator.Consumer.{Message, probe}

module _ (F : Float64) (tcp : TcpNet) (dns : DnsNet) (http : HttpNet F) where
  -- executors[kind], where a nil entry and a missing one are none.
  abbrev pub executor : Kind → Option (ProbeJob → ProbeResult F)
  executor kind =
      if kind == kind_http_probe
      then some (execute_http F http)
      else if kind == kind_dns_probe
      then some (execute_dns F dns)
      else if kind == kind_tcp_probe
      then some (execute_tcp F tcp)
      else none

  abbrev pub run_executor : Option (ProbeJob → ProbeResult F) → ProbeJob → Option (ProbeResult F)
  run_executor none job = none
  run_executor (some execute) job = if job.spec.suspend then none else some (execute job)

  unfoldable pub on_job : ProbeJob → Option (ProbeResult F)
  on_job job = run_executor (executor job.spec.kind) job

  abbrev pub publish : Option (ProbeResult F) → List (Message F) → List (Message F)
  publish none rest = rest
  publish (some result) rest = probe result ∷ rest

  -- The messages of a worker that takes one job after the other.
  unfoldable pub work : List ProbeJob → List (Message F)
  work [] = []
  work (job ∷ jobs) = publish (on_job job) (work jobs)
