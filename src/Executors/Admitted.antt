-- ===== src/Executors/Admitted.antt =====
-- The objects that the webhooks admit never make a run that is config_error.
use synthetics_operator.Shared.{
  if_intro, String, refl, inl, inr, Bool, true, false, not, Option, none, some, List, [], arith,
  Bytes, codes, bytes_beq, All, In, ℤ, pos, ltb_ℤ, leb_ℤ, ◌≡◌, ◌≢◌, ◌&&◌, ◌||◌, ◌∷◌, ◌==◌,
  string_eq, bytes_eq, nat_eq, if◌then◌else◌,
}
use mathlib.Core.Path.{subst}
use synthetics_operator.Float.{Float64}
use synthetics_operator.Results.{ProbeJob, Time, SpecUpdate}
use synthetics_operator.Specs.{
  dns_probe_spec_update, to_assertions, tcp_probe_spec_update, milliseconds,
}
use synthetics_operator.Shared.Strings.{trim_space}
use synthetics_operator.Assertions.{eval_tcp_assertions, eval_dns_assertions}
use synthetics_operator.Executors.{to_upper, is_blank, run_timeout}
use synthetics_operator.Executors.Tcp.{TcpNet, connect, run_tcp, execute_tcp, tcp_failure}
use synthetics_operator.Api.{TcpProbe, DnsProbe}
use synthetics_operator.Webhooks.{
  validate_dns_probe, Checks, check_host, check, bad_port, bad_resolver, dns_types, is_address,
  validate_tcp_probe,
}
use synthetics_operator.Webhooks.Errors.{all_errors-nil_iff}
use synthetics_operator.Shared.Graph.{member, In-member}
use synthetics_operator.Executors.Dns.{
  execute_dns, system_resolver, DnsNet, run_dns, execute_query, dns_failure, is_host_port,
  of_response, with_first, DnsResult, DnsResponse, Record, type_or_a, resolver_or_system,
}
use synthetics_operator.Executors.Verdict.{dns_failure-Fails, tcp_failure-Fails}
use synthetics_operator.Executors.Config.{IsTarget, connect-runs_iff, verdict_of-runs}

All-In {ℓ} : (P : Bytes → Type ℓ) (xs : List Bytes) → All P xs → (x : Bytes) → In x xs → P x
All-In P [] _ x found = absurd found
All-In P (y ∷ ys) (p, ps) x (inl e) = subst P e p
All-In P (y ∷ ys) (p, ps) x (inr i) = All-In P ys ps x i

of_response-runs :
    (net : DnsNet) (found : Option DnsResponse) → (of_response net found).config_error ≡ false
of_response-runs net none = refl
of_response-runs net (some resp) = first _ resp.answer
  where
    first :
        (r : DnsResult) (answer : List (Record × String))
        → (with_first net answer r).config_error ≡ r.config_error
    first r [] = refl
    first r (a ∷ rest) = refl

execute_query-runs :
    (net : DnsNet) (timeout : ℤ) (name type resolver : String)
    → is_blank (codes name) ≡ false
    → net.is_type (type_or_a (to_upper (codes type))) ≡ true
    → is_host_port (net.split_host_port (resolver_or_system resolver)) ≡ true
    → (execute_query net timeout name type resolver).config_error ≡ false
unfolding execute_query
execute_query-runs net timeout name type resolver named typed resolved =
    rw (named, typed, resolved)
      (if_intro (λ (r : DnsResult). r.config_error ≡ false) (leb_ℤ (net.remaining timeout) (pos 0))
        refl
        (of_response-runs net
          (net.exchange name (type_or_a (to_upper (codes type))) (resolver_or_system resolver))))

module _ (F : Float64) (checks : Checks) where
  abbrev pub job_of : SpecUpdate → Time → ProbeJob
  job_of spec at = record { spec = spec; scheduled_at = at }

  check_host-IsTarget :
      (host : Bytes) (port : ℤ)
      → check_host F checks (trim_space host) ≡ []
      → check (ltb_ℤ port (pos 1) || ltb_ℤ (pos 65535) port) bad_port ≡ []
      → IsTarget host port
  check_host-IsTarget host port hosted ported =
      (named (trim_space host) hosted, ground (arith, ported), ground (arith, ported))
    where
      named : (trimmed : Bytes) → check_host F checks trimmed ≡ [] → trimmed ≢ []
      named [] errs e = ground (arith, errs)
      named (c ∷ s) errs e = ground (arith, e)

  -- An admitted TCP probe is never a config_error, whatever the network answers.
  validate_tcp_probe-runs :
      (p : TcpProbe) (net : TcpNet) (at : Time)
      → validate_tcp_probe F checks p ≡ []
      → (execute_tcp F net (job_of (tcp_probe_spec_update p) at)).result ≢ "config_error"
  unfolding validate_tcp_probe execute_tcp run_tcp tcp_probe_spec_update eval_tcp_assertions
  validate_tcp_probe-runs p net at admitted =
      let parts = (all_errors-nil_iff _).0 admitted in
      let timeout = run_timeout (milliseconds p.timeout) in
      let raw = connect net timeout p.target.host p.target.port in
      verdict_of-runs F raw.config_error (tcp_failure raw) (to_assertions p.assertions) _
        ((connect-runs_iff net timeout p.target.host p.target.port).1
          (check_host-IsTarget p.target.host p.target.port parts.1.0 parts.1.1.0))
        (tcp_failure-Fails F raw)

  -- What the validation and the executor take from the same libraries: the types that are admitted
  -- are known, an address is split alike, and the default resolver is one.
  pub record Agrees (net : DnsNet) : Type 0 where
    pub known : All (λ type. net.is_type type ≡ true) dns_types
    pub split : (resolver : String) → net.split_host_port resolver ≡ checks.split_host_port resolver
    pub system : is_host_port (checks.split_host_port system_resolver) ≡ true

  admitted_type :
      (net : DnsNet)
      → Agrees net
      → (type : Bytes) → member type dns_types ≡ true
      → net.is_type (type_or_a type) ≡ true
  unfolding bytes_beq
  admitted_type net agrees type h =
      All-In (λ t. net.is_type (type_or_a t) ≡ true) dns_types agrees.known type
        (In-member type dns_types h)

  admitted_resolver :
      (net : DnsNet)
      → Agrees net
      → (resolver : String)
      → check
          (not (resolver == "") && not (is_address F checks (checks.split_host_port resolver)))
          bad_resolver
        ≡ []
      → is_host_port (net.split_host_port (resolver_or_system resolver)) ≡ true
  admitted_resolver net agrees resolver h =
      rw (agrees.split (resolver_or_system resolver)) (of_test (resolver == "") agrees.system h)
    where
      of_test :
          (test : Bool)
          → is_host_port (checks.split_host_port system_resolver) ≡ true
          → check
              (not test && not (is_address F checks (checks.split_host_port resolver)))
              bad_resolver
            ≡ []
          → is_host_port (checks.split_host_port (if test then system_resolver else resolver))
            ≡ true
      of_test true known errs = known
      of_test false known errs = ground (arith, errs)

  -- An admitted DNS probe is never a config_error, whatever the network answers, a resolver that cannot
  -- be reached included, where the executor knows the admitted types and splits an address the way the
  -- validation does.
  pub validate_dns_probe-runs :
      (p : DnsProbe) (net : DnsNet) (at : Time)
      → Agrees net
      → validate_dns_probe F checks p ≡ []
      → (execute_dns F net (job_of (dns_probe_spec_update p) at)).result ≢ "config_error"
  unfolding validate_dns_probe execute_dns run_dns dns_probe_spec_update eval_dns_assertions
  validate_dns_probe-runs p net at agrees admitted =
      let parts = (all_errors-nil_iff _).0 admitted in
      let timeout = run_timeout (milliseconds p.timeout) in
      let raw = execute_query net timeout p.query.name p.query.type p.query.resolver in
      verdict_of-runs F raw.config_error (dns_failure F net raw) (to_assertions p.assertions) _
        (execute_query-runs net timeout p.query.name p.query.type p.query.resolver
          (ground (arith, parts.1.0))
          (admitted_type net agrees (to_upper (codes p.query.type)) (ground (arith, parts.1.1.0)))
          (admitted_resolver net agrees p.query.resolver parts.1.1.1.0))
        (dns_failure-Fails F net raw)
