-- ===== src/Prober/Delivery.antt =====
-- What the worker publishes of a job, and what the store holds once it was handled.
use synthetics_operator.Shared.{
  if_intro, none_ne, some_inj, refl, sym, inl, inr, Bool, true, false, Option, none, some, List, [],
  arith, All, ◌≡◌, ◌∙◌, ◌≢◌, ◌↔◌, ◌⊎◌, ◌||◌, ◌∷◌, ◌++◌, ◌==◌, string_eq, bytes_eq, nat_eq,
  if◌then◌else◌,
}
use synthetics_operator.Shared.Dict.{Dict, lookup, lookup-insert_self}
use mathlib.Core.Path.{subst}
use synthetics_operator.Float.{Float64}
use synthetics_operator.Results.{
  Kind, kind_http_probe, kind_dns_probe, kind_tcp_probe, ProbeJob, ProbeResult,
  HttpProbeSpecPayload, DnsProbeSpecPayload, TcpProbeSpecPayload,
}
use synthetics_operator.Executors.{probe_result, config_error_result}
use synthetics_operator.Executors.Tcp.{TcpNet, run_tcp, execute_tcp}
use synthetics_operator.Executors.Dns.{DnsNet, run_dns, execute_dns}
use synthetics_operator.Executors.Http.{HttpNet, run_http, execute_http}
use synthetics_operator.Executors.Verdict.{IsClass, execute-IsClass}
use synthetics_operator.Metrics.{ProbeState, CrKey, crkey, key_eq, Store, upsert}
use synthetics_operator.Consumer.{probe, handle, run, on_probe_result, probe_state}
use synthetics_operator.Consumer.Isolation.{handle-SameAt}
use synthetics_operator.Scheduler.{key_of}
use synthetics_operator.Prober.{executor, run_executor, on_job, publish, work}

abbrev pub is_probe : Kind → Bool
is_probe kind = kind == kind_http_probe || kind == kind_dns_probe || kind == kind_tcp_probe

module _ (F : Float64) where
  -- The result has the identity, the generation and the time of the job.
  abbrev pub Answers : ProbeJob → ProbeResult F → Type 0
  Answers job r =
      (r.kind ≡ job.spec.kind)
      × (r.name ≡ job.spec.name)
      × (r.namespace ≡ job.spec.namespace)
      × (r.generation ≡ job.spec.generation)
      × (r.timestamp ≡ job.scheduled_at)

  run_tcp-Answers :
      (net : TcpNet) (job : ProbeJob) (found : Option TcpProbeSpecPayload)
      → Answers job (run_tcp F net job found)
  unfolding run_tcp config_error_result probe_result
  run_tcp-Answers net job none = (refl, refl, refl, refl, refl)
  run_tcp-Answers net job (some payload) = (refl, refl, refl, refl, refl)

  run_dns-Answers :
      (net : DnsNet) (job : ProbeJob) (found : Option DnsProbeSpecPayload)
      → Answers job (run_dns F net job found)
  unfolding run_dns config_error_result probe_result
  run_dns-Answers net job none = (refl, refl, refl, refl, refl)
  run_dns-Answers net job (some payload) = (refl, refl, refl, refl, refl)

  run_http-Answers :
      (net : HttpNet F) (job : ProbeJob) (found : Option HttpProbeSpecPayload)
      → Answers job (run_http F net job found)
  unfolding run_http config_error_result probe_result
  run_http-Answers net job none = (refl, refl, refl, refl, refl)
  run_http-Answers net job (some payload) = (refl, refl, refl, refl, refl)

  module _ (tcp : TcpNet) (dns : DnsNet) (http : HttpNet F) where
    -- A job publishes nothing exactly when its kind is not one of the three that probe, or its object
    -- is suspended.
    on_job-none_iff :
        (job : ProbeJob)
        → (on_job F tcp dns http job ≡ none)
          ↔ ((is_probe job.spec.kind ≡ false) ⊎ (job.spec.suspend ≡ true))
    unfolding on_job
    on_job-none_iff job = ground arith

    -- What holds of an executor, if there is one.
    abbrev ExecutorAnswers : ProbeJob → Option (ProbeJob → ProbeResult F) → Type 0
    ExecutorAnswers job none = Unit
    ExecutorAnswers job (some execute) = Answers job (execute job) × IsClass (execute job).result

    executor-Answers :
        (kind : Kind) (job : ProbeJob) → ExecutorAnswers job (executor F tcp dns http kind)
    unfolding execute_tcp execute_dns execute_http
    executor-Answers kind job =
        let (tcp_class, dns_class, http_class) = execute-IsClass F tcp dns http job in
        if_intro (ExecutorAnswers job) (kind == kind_http_probe)
          (run_http-Answers http job job.spec.http_probe, http_class)
          (if_intro (ExecutorAnswers job) (kind == kind_dns_probe)
            (run_dns-Answers dns job job.spec.dns_probe, dns_class)
            (if_intro (ExecutorAnswers job) (kind == kind_tcp_probe)
              (run_tcp-Answers tcp job job.spec.tcp_probe, tcp_class) tt))

    run_executor-Answers :
        (found : Option (ProbeJob → ProbeResult F)) (job : ProbeJob) (r : ProbeResult F)
        → ExecutorAnswers job found
        → run_executor F tcp dns http found job ≡ some r
        → Answers job r × IsClass r.result
    run_executor-Answers none job r answers e = absurd (none_ne e)
    run_executor-Answers (some execute) job r answers e = of_suspend job.spec.suspend e
      where
        of_suspend :
            (suspend : Bool)
            → (if suspend then none else some (execute job)) ≡ some r
            → Answers job r × IsClass r.result
        of_suspend true e = absurd (none_ne e)
        of_suspend false e = subst (λ s. Answers job s × IsClass s.result) (some_inj e) answers

    -- A published result has the kind, the name, the namespace and the generation of its job's spec,
    -- and the time for which the job was scheduled; its class is one of the documented ones.
    on_job-Answers :
        (job : ProbeJob) (r : ProbeResult F)
        → on_job F tcp dns http job ≡ some r
        → Answers job r × IsClass r.result
    unfolding on_job
    on_job-Answers job r e =
        run_executor-Answers (executor F tcp dns http job.spec.kind) job r
          (executor-Answers job.spec.kind job) e

    same_key :
        (job : ProbeJob) (r : ProbeResult F)
        → Answers job r
        → crkey r.kind (record { namespace = r.namespace; name = r.name }) ≡ key_of job.spec
    same_key job r answers =
        let (kind, name, namespace, _, _) = answers in rw (kind, name, namespace) refl

    -- The states after a first message, if there is one, and the messages of the jobs.
    abbrev rest : Option (ProbeResult F) → List ProbeJob → Store F → Dict CrKey (ProbeState F)
    rest found jobs s = (run F (publish F tcp dns http found (work F tcp dns http jobs)) s).0.probes

    -- A job of another object, or one that publishes nothing.
    abbrev pub IsQuiet : CrKey → ProbeJob → Type 0
    IsQuiet key job = (key_of job.spec ≢ key) ⊎ (on_job F tcp dns http job ≡ none)

    -- A first message of another object, or none, leaves a state that the rest leaves.
    rest-frame :
        (key : CrKey) (job : ProbeJob) (jobs : List ProbeJob) (s : Store F)
        (found : Option (ProbeResult F))
        → IsQuiet key job
        → ((t : Store F)
            → lookup key (run F (work F tcp dns http jobs) t).0.probes ≡ lookup key t.probes)
        → on_job F tcp dns http job ≡ found
        → lookup key (rest found jobs s) ≡ lookup key s.probes
    unfolding run
    rest-frame key job jobs s none quiet frame e = frame s
    rest-frame key job jobs s (some r) (inr silent) frame e = absurd (none_ne (sym silent ∙ e))
    rest-frame key job jobs s (some r) (inl other) frame e =
        frame (handle F (probe r) s).0
        ∙ (handle-SameAt F (probe r) key s
            (λ same. other (sym (same_key job r (on_job-Answers job r e).0) ∙ same))).probes

    -- Jobs of other objects, and jobs that publish nothing, leave the state of a probe.
    work-frame :
        (key : CrKey) (jobs : List ProbeJob) (s : Store F)
        → All (IsQuiet key) jobs
        → lookup key (run F (work F tcp dns http jobs) s).0.probes ≡ lookup key s.probes
    unfolding work run
    work-frame key [] s h = refl
    work-frame key (job ∷ jobs) s (p, ps) =
        rest-frame key job jobs s (on_job F tcp dns http job) p (λ t. work-frame key jobs t ps) refl

    handled :
        (job : ProbeJob) (r : ProbeResult F) (s : Store F)
        → Answers job r
        → lookup (key_of job.spec) (handle F (probe r) s).0.probes ≡ some (probe_state F r)
    unfolding handle on_probe_result upsert probe_state
    handled job r s answers = rw (sym (same_key job r answers)) (lookup-insert_self _ _ s.probes)

    -- What holds of the states after the rest, from any store, holds after a first message.
    after_first :
        (P : Dict CrKey (ProbeState F) → Type 0) (jobs : List ProbeJob)
        → ((t : Store F) → P (run F (work F tcp dns http jobs) t).0.probes)
        → (found : Option (ProbeResult F)) (s : Store F) → P (rest found jobs s)
    unfolding run
    after_first P jobs h none s = h s
    after_first P jobs h (some q) s = h (handle F (probe q) s).0

    -- After a worker's jobs were handled in order, the state of an object is the one of the result
    -- of its last job that publishes one: later jobs of other objects, and later jobs of the object that
    -- publish nothing, do not change it.
    pub work-last :
        (before after : List ProbeJob) (job : ProbeJob) (r : ProbeResult F) (s : Store F)
        → on_job F tcp dns http job ≡ some r
        → All (IsQuiet (key_of job.spec)) after
        → lookup (key_of job.spec) (run F (work F tcp dns http (before ++ job ∷ after)) s).0.probes
          ≡ some (probe_state F r)
    unfolding work run
    work-last [] after job r s e others = rw e (
        work-frame (key_of job.spec) after (handle F (probe r) s).0 others
        ∙ handled job r s (on_job-Answers job r e).0)
    work-last (j ∷ before) after job r s e others =
        after_first (λ probes. lookup (key_of job.spec) probes ≡ some (probe_state F r))
          (before ++ job ∷ after) (λ t. work-last before after job r t e others)
          (on_job F tcp dns http j) s
