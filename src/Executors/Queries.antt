-- ===== src/Executors/Queries.antt =====
-- When the result of a DNS job is ok.
use synthetics_operator.Shared.{
  none_ne, some_inj, inl, inr, length, not, ℕ, String, refl, sym, Bool, true, false, Option, none,
  some, List, [], arith, Bytes, codes, ℤ, pos, leb_ℤ, ◌≡◌, ◌↔◌, ◌⊎◌, ◌∷◌, string_eq, bytes_eq,
  nat_eq, if◌then◌else◌,
}
use mathlib.Core.Path.{subst}
use synthetics_operator.Float.{Float64}
use synthetics_operator.Results.{ProbeJob, DnsProbeSpecPayload, Assertion}
use synthetics_operator.Specs.{milliseconds}
use synthetics_operator.Assertions.{eval_dns_assertions, dns_context}
use synthetics_operator.Assertions.Verdicts.{all_pass}
use synthetics_operator.Executors.{to_upper, is_blank, run_timeout}
use synthetics_operator.Executors.Dns.{
  DnsNet, DnsResult, DnsResponse, Record, with_first, of_response, dns_failure, run_dns,
  execute_query, is_host_port, without_answer, type_or_a, resolver_or_system,
}
use synthetics_operator.Executors.Verdict.{dns_failure-Fails}
use synthetics_operator.Executors.Config.{verdict_of-ok_iff}

module _ (F : Float64) where
  open F use {Float, of_int}

  module _ (net : DnsNet) (assertions : List Assertion) where
    -- The executor could run, nothing failed, and the assertions hold of the result.
    abbrev Passes : DnsResult → Type 0
    Passes raw =
        (raw.config_error ≡ false)
        × (dns_failure F net raw ≡ none)
        × (all_pass F
              (dns_context F (of_int (pos raw.answer_count)) (of_int (milliseconds raw.duration)))
              assertions
            ≡ true)

    -- The assertions hold of so many answers and such a duration.
    abbrev pub HoldOf : ℕ → ℤ → Type 0
    HoldOf answers duration =
        all_pass F (dns_context F (of_int (pos answers)) (of_int (milliseconds duration)))
          assertions
        ≡ true

    -- The deadline has passed, and the assertions hold of no answers; or it has not, the resolver
    -- answers, and they hold of its answer.
    abbrev pub Settled : Bool → Option DnsResponse → Type 0
    Settled late found =
        ((late ≡ true) × HoldOf 0 net.elapsed)
        ⊎ ((late ≡ false)
            × ((resp : DnsResponse) × (found ≡ some resp) × HoldOf (length resp.answer) resp.rtt))

    with_first-Passes :
        (answer : List (Record × String)) (raw : DnsResult)
        → Passes (with_first net answer raw) ↔ Passes raw
    with_first-Passes [] raw = (λ h. h, λ h. h)
    with_first-Passes (rr ∷ rest) raw = (λ h. h, λ h. h)

    deadline_iff :
        (late : Bool) (found : Option DnsResponse)
        → Passes (if late then without_answer false false net.elapsed else of_response net found)
          ↔ Settled late found
    deadline_iff true found = (
      λ (_, _, p). inl (refl, p),
      λ h. elim h [ inl (_, p) ↦ (refl, refl, p) | inr (e, _) ↦ ground (arith, e) ],
    )
    deadline_iff false none = (
      λ (_, e, _). ground (arith, e),
      λ h. elim h [ inl (e, _) ↦ ground (arith, e) | inr (_, (resp, e, _)) ↦ absurd (none_ne e) ],
    )
    deadline_iff false (some resp) =
        let first = with_first-Passes resp.answer _ in
        (
          λ h. inr (refl, (resp, refl, (first.0 h).2)),
          λ h. elim h [
            | inl (e, _) ↦ ground (arith, e)
            | inr (_, (other, e, p)) ↦ first.1 (
              refl,
              refl,
              subst (λ (r : DnsResponse). HoldOf (length r.answer) r.rtt) (sym (some_inj e)) p,
            )
          ],
        )

  -- A query that the executor can send: a name, a known type, and a resolver with a host and a port.
  abbrev pub IsQuery : DnsNet → DnsProbeSpecPayload → Type 0
  IsQuery net payload =
      (is_blank (codes payload.name) ≡ false)
      × (net.is_type (type_or_a (to_upper (codes payload.type))) ≡ true)
      × (is_host_port (net.split_host_port (resolver_or_system payload.resolver)) ≡ true)

  execute_query-Passes :
      (net : DnsNet) (assertions : List Assertion) (timeout : ℤ) (payload : DnsProbeSpecPayload)
      → Passes net assertions (execute_query net timeout payload.name payload.type payload.resolver)
        ↔ (IsQuery net payload
            × Settled net assertions (leb_ℤ (net.remaining timeout) (pos 0)) (
                net.exchange payload.name
                  (type_or_a (to_upper (codes payload.type)))
                  (resolver_or_system payload.resolver)))
  unfolding execute_query
  execute_query-Passes net assertions timeout payload =
      of_tests (is_blank (codes payload.name)) (net.is_type type)
        (is_host_port (net.split_host_port resolver))
    where
      type : Bytes
      type = type_or_a (to_upper (codes payload.type))

      resolver : String
      resolver = resolver_or_system payload.resolver

      late : Bool
      late = leb_ℤ (net.remaining timeout) (pos 0)

      of_tests :
          (blank typed resolved : Bool)
          → Passes net assertions (
              if blank
              then without_answer true false net.elapsed
              else if not typed
              then without_answer true false net.elapsed
              else if not resolved
              then without_answer true false net.elapsed
              else if late
              then without_answer false false net.elapsed
              else of_response net (net.exchange payload.name type resolver))
            ↔ (((blank ≡ false) × (typed ≡ true) × (resolved ≡ true))
                × Settled net assertions late (net.exchange payload.name type resolver))
      of_tests true typed resolved = (λ h. ground (arith, h.0), λ h. ground (arith, h.0.0))
      of_tests false false resolved = (λ h. ground (arith, h.0), λ h. ground (arith, h.0.1))
      of_tests false true false = (λ h. ground (arith, h.0), λ h. ground (arith, h.0.2))
      of_tests false true true =
          let settled =
            deadline_iff net assertions late (net.exchange payload.name type resolver) in
          (λ h. ((refl, refl, refl), settled.0 h), λ h. settled.1 h.1)

  -- A DNS job's result is ok exactly when its query can be sent and one of two things holds: the
  -- resolver answers before the deadline, and each assertion holds of the number of its answers and its
  -- duration; or the deadline has passed when the query is ready, and each assertion holds of no
  -- answers and the time that went by.
  pub run_dns-ok_iff :
      (net : DnsNet) (job : ProbeJob) (payload : DnsProbeSpecPayload)
      → ((run_dns F net job (some payload)).result ≡ "ok") ↔ (
          IsQuery net payload
          × Settled net payload.assertions
              (leb_ℤ (net.remaining (run_timeout payload.timeout_ms)) (pos 0))
              (net.exchange payload.name
                (type_or_a (to_upper (codes payload.type)))
                (resolver_or_system payload.resolver)))
  unfolding run_dns eval_dns_assertions
  run_dns-ok_iff net job payload =
      let timeout = run_timeout payload.timeout_ms in
      let raw = execute_query net timeout payload.name payload.type payload.resolver in
      let ok =
        verdict_of-ok_iff F raw.config_error (dns_failure F net raw) payload.assertions
          (dns_context F (of_int (pos raw.answer_count)) (of_int (milliseconds raw.duration)))
          (dns_failure-Fails F net raw) in
      let passes = execute_query-Passes net payload.assertions timeout payload in
      (λ e. passes.0 (ok.0 e), λ h. ok.1 (passes.1 h))

  -- Without assertions, a DNS job whose query can be sent is ok where its deadline has passed when the
  -- query is ready.
  run_dns-expired :
      (net : DnsNet) (job : ProbeJob) (payload : DnsProbeSpecPayload)
      → IsQuery net payload
      → payload.assertions ≡ []
      → leb_ℤ (net.remaining (run_timeout payload.timeout_ms)) (pos 0) ≡ true
      → (run_dns F net job (some payload)).result ≡ "ok"
  unfolding all_pass
  run_dns-expired net job payload query bare late =
      (run_dns-ok_iff net job payload).1 (query, inl (late, rw bare refl))
