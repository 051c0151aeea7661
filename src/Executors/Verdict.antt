-- ===== src/Executors/Verdict.antt =====
-- When a run counts as a success, and which classes of result there are.
use synthetics_operator.Shared.{
  if_intro, none_ne, some_inj, String, refl, Bool, true, false, Option, none, some, List, [], Bytes,
  pos, ◌≡◌, ◌||◌, ◌∷◌, ◌==◌, string_eq, bytes_eq, nat_eq, if◌then◌else◌,
}
use mathlib.Core.Path.{subst}
use synthetics_operator.Float.{Float64}
use synthetics_operator.Shared.Graph.{member}
use synthetics_operator.Shared.Dict.{Dict}
use synthetics_operator.Results.{
  HttpProbeSpecPayload, DnsProbeSpecPayload, ProbeJob, TcpProbeSpecPayload, Assertion,
}
use synthetics_operator.Specs.{milliseconds}
use synthetics_operator.Assertions.{
  eval_tcp_assertions, eval_http_assertions, eval_dns_assertions, eval_in_context,
}
use synthetics_operator.Assertions.Verdicts.{all_pass, eval_assertions-eq}
use synthetics_operator.Executors.{
  Verdict, NetError, classify_http_transport, classify_tcp_connect, verdict_of, run_timeout,
  config_error_result, classify_op, after_op, is_timeout, is_tls_error,
}
use synthetics_operator.Executors.Tcp.{
  TcpNet, TcpResult, connect, run_tcp, execute_tcp, tcp_failure,
}
use synthetics_operator.Executors.Dns.{
  DnsNet, DnsResult, run_dns, execute_dns, dns_failure, execute_query,
}
use synthetics_operator.Executors.Http.{
  HttpResult, HttpNet, run_http, execute_http, http_failure, execute_request, request_of,
}

-- The results that the documentation names for a probe.
abbrev pub classes : List String
classes =
    "ok" ∷ "config_error" ∷ "dns_failed" ∷ "connect_refused" ∷ "connect_timeout" ∷ "connect_failed"
    ∷ "tls_failed" ∷ "recv_timeout" ∷ "assertion_failed" ∷ []

abbrev pub IsClass : String → Type 0
IsClass result = member result classes ≡ true

-- The class of a failure is neither ok nor config_error.
abbrev IsFailure : String → Type 0
IsFailure result =
    IsClass result × ((result == "ok") ≡ false) × ((result == "config_error") ≡ false)

after_op-IsFailure : (err : NetError) → IsFailure (after_op err)
unfolding member
after_op-IsFailure err =
    if_intro IsFailure err.is_deadline_exceeded (refl, refl, refl) (refl, refl, refl)

classify_op-IsFailure :
    (err : NetError) (op : Option (String × Bool)) → IsFailure (classify_op err op)
unfolding member
classify_op-IsFailure err none = after_op-IsFailure err
classify_op-IsFailure err (some (op, timeout)) =
    if_intro IsFailure (op == "dial")
      (if_intro IsFailure timeout (refl, refl, refl) (refl, refl, refl))
      (if_intro IsFailure (op == "read") (refl, refl, refl) (after_op-IsFailure err))

classify_http_transport-IsFailure : (err : NetError) → IsFailure (classify_http_transport err)
unfolding classify_http_transport member
classify_http_transport-IsFailure err =
    if_intro IsFailure err.is_dns_error (refl, refl, refl)
      (if_intro IsFailure (is_tls_error err) (refl, refl, refl)
        (classify_op-IsFailure err err.op_error))

classify_tcp_connect-IsFailure : (err : NetError) → IsFailure (classify_tcp_connect err)
unfolding classify_tcp_connect member
classify_tcp_connect-IsFailure err =
    if_intro IsFailure err.is_dns_error (refl, refl, refl)
      (if_intro IsFailure (err.is_deadline_exceeded || is_timeout err.net_error) (refl, refl, refl)
        (if_intro IsFailure err.is_connection_refused (refl, refl, refl) (refl, refl, refl)))

-- Every class that a failure has is one of a failure.
abbrev pub Fails : Option String → Type 0
Fails failure = (class : String) → failure ≡ some class → IsFailure class

some-Fails : (s : String) → IsFailure s → Fails (some s)
some-Fails s h class e = subst IsFailure (some_inj e) h

pub none-Fails : Fails none
none-Fails class e = absurd (none_ne e)

module _ (F : Float64) where
  open F use {of_int}

  -- What the assertions of a context answer.
  pub eval_in_context-result :
      (ctx : Dict Bytes F.Float) (assertions : List Assertion)
      → (eval_in_context F ctx assertions).0
        ≡ (if all_pass F ctx assertions then "ok" else "assertion_failed")
  unfolding eval_in_context
  eval_in_context-result ctx assertions = rw (eval_assertions-eq F assertions ctx) refl

  eval_in_context-IsClass :
      (ctx : Dict Bytes F.Float) (assertions : List Assertion)
      → IsClass (eval_in_context F ctx assertions).0
  unfolding member
  eval_in_context-IsClass ctx assertions =
      rw (eval_in_context-result ctx assertions)
        (if_intro IsClass (all_pass F ctx assertions) refl refl)

  verdict_of-IsClass :
      (config_error : Bool) (failure : Option String) (assertions : List Assertion)
      (evaluated : Verdict F)
      → Fails failure
      → IsClass evaluated.0
      → IsClass (verdict_of F config_error failure assertions evaluated).0
  unfolding member
  verdict_of-IsClass true failure assertions evaluated f e = refl
  verdict_of-IsClass false (some class) assertions evaluated f e = (f class refl).0
  verdict_of-IsClass false none [] evaluated f e = refl
  verdict_of-IsClass false none (a ∷ rest) evaluated f e = e

  pub tcp_failure-Fails : (raw : TcpResult) → Fails (tcp_failure raw)
  tcp_failure-Fails raw = of_error raw.connect_err
    where
      of_error :
          (found : Option NetError)
          → Fails (elim found [ none ↦ none | some err ↦ some (classify_tcp_connect err) ])
      of_error none = none-Fails
      of_error (some err) = some-Fails _ (classify_tcp_connect-IsFailure err)

  pub dns_failure-Fails : (net : DnsNet) (raw : DnsResult) → Fails (dns_failure F net raw)
  unfolding member
  dns_failure-Fails net raw =
      if_intro Fails raw.resolver_err (some-Fails "dns_failed" (refl, refl, refl)) none-Fails

  http_failure-Fails : (net : HttpNet F) (raw : HttpResult F) → Fails (http_failure F net raw)
  http_failure-Fails net raw = of_error raw.transport_err
    where
      of_error :
          (found : Option NetError)
          → Fails (elim found [ none ↦ none | some err ↦ some (classify_http_transport err) ])
      of_error none = none-Fails
      of_error (some err) = some-Fails _ (classify_http_transport-IsFailure err)

  run_tcp-IsClass :
      (net : TcpNet) (job : ProbeJob) (found : Option TcpProbeSpecPayload)
      → IsClass (run_tcp F net job found).result
  unfolding run_tcp config_error_result member eval_tcp_assertions
  run_tcp-IsClass net job none = refl
  run_tcp-IsClass net job (some payload) =
      let raw = connect net (run_timeout payload.timeout_ms) payload.host payload.port in
      verdict_of-IsClass raw.config_error (tcp_failure raw) payload.assertions
        (eval_tcp_assertions F (milliseconds raw.duration) payload.assertions)
        (tcp_failure-Fails raw) (eval_in_context-IsClass _ payload.assertions)

  run_dns-IsClass :
      (net : DnsNet) (job : ProbeJob) (found : Option DnsProbeSpecPayload)
      → IsClass (run_dns F net job found).result
  unfolding run_dns config_error_result member eval_dns_assertions
  run_dns-IsClass net job none = refl
  run_dns-IsClass net job (some payload) =
      let raw =
        execute_query net (run_timeout payload.timeout_ms) payload.name payload.type
          payload.resolver in
      verdict_of-IsClass raw.config_error (dns_failure F net raw) payload.assertions
        (eval_dns_assertions F (pos raw.answer_count) (milliseconds raw.duration)
          payload.assertions)
        (dns_failure-Fails net raw) (eval_in_context-IsClass _ payload.assertions)

  run_http-IsClass :
      (net : HttpNet F) (job : ProbeJob) (found : Option HttpProbeSpecPayload)
      → IsClass (run_http F net job found).result
  unfolding run_http config_error_result member eval_http_assertions
  run_http-IsClass net job none = refl
  run_http-IsClass net job (some payload) =
      let raw = execute_request F net (run_timeout payload.timeout_ms) (request_of F net payload) in
      verdict_of-IsClass raw.config_error (http_failure F net raw) payload.assertions _
        (http_failure-Fails net raw) (eval_in_context-IsClass _ payload.assertions)

  -- Whatever the network answers and whatever the job holds, the result that an executor reports is
  -- one of the nine classes that the documentation names.
  pub execute-IsClass :
      (tcp : TcpNet) (dns : DnsNet) (http : HttpNet F) (job : ProbeJob)
      → IsClass (execute_tcp F tcp job).result
        × IsClass (execute_dns F dns job).result
        × IsClass (execute_http F http job).result
  unfolding execute_tcp execute_dns execute_http
  execute-IsClass tcp dns http job = (
    run_tcp-IsClass tcp job job.spec.tcp_probe,
    run_dns-IsClass dns job job.spec.dns_probe,
    run_http-IsClass http job job.spec.http_probe,
  )
