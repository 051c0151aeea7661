-- ===== src/Prober/Tests.antt =====
-- Jobs of a worker, and witnesses of the theorems.
use synthetics_operator.Shared.{
  refl, ap, inl, inr, true, none, some, List, [], arith, str_beq_iff, ◌≡◌, ◌≢◌, ◌∷◌, ◌++◌,
  string_eq, bytes_eq, nat_eq,
}
use synthetics_operator.Shared.Dict.{lookup}
use synthetics_operator.Float.Exact.{exact}
use synthetics_operator.Results.{ProbeJob, ProbeResult}
use synthetics_operator.Metrics.{CrKey, key_eq, new_store}
use synthetics_operator.Consumer.{run, probe_state}
use synthetics_operator.Scheduler.{key_of}
use synthetics_operator.Executors.Tcp.{execute_tcp}
use synthetics_operator.Executors.Tests.{
  closed_net, late_net, refusing_net, tcp_job, dns_job, running,
}
use synthetics_operator.Prober.{on_job, work}
use synthetics_operator.Prober.Delivery.{work-last}

abbrev suspended : ProbeJob
suspended = record {
  spec = record tcp_job.spec { suspend = true };
  scheduled_at = tcp_job.scheduled_at;
}

abbrev result : ProbeResult exact
result = execute_tcp exact closed_net tcp_job

runs :
    (on_job exact closed_net late_net refusing_net tcp_job ≡ some result)
    × (on_job exact closed_net late_net refusing_net suspended ≡ none)
unfolding on_job running
runs = (refl, refl)

abbrev others : List ProbeJob
others = dns_job ∷ suspended ∷ []

other : key_of dns_job.spec ≢ key_of tcp_job.spec
unfolding running
other e = ground (arith, (str_beq_iff "DNSProbe" "TCPProbe").1 (ap (λ (k : CrKey). k.kind) e))

work-last_example :
    lookup
      (key_of tcp_job.spec)
      (run exact
        (work exact closed_net late_net refusing_net (others ++ tcp_job ∷ dns_job ∷ suspended ∷ []))
        (new_store exact)).0.probes
    ≡ some (probe_state exact result)
work-last_example =
    work-last exact closed_net late_net refusing_net others (dns_job ∷ suspended ∷ []) tcp_job
      result (new_store exact) runs.0 (inl other, (inr runs.1, tt))
