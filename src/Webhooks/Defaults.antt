-- ===== src/Webhooks/Defaults.antt =====
-- Defaulting an object twice is defaulting it once, and what a default of the times leaves.
use synthetics_operator.Shared.{
  refl, Option, none, some, [], arith, str_beq_iff, ℤ, pos, ◌*◌, ◌≡◌, ◌↔◌, ◌⊎◌, ◌≤ℤ◌, ◌<ℤ◌,
}
use synthetics_operator.Shared.Trim.{trim_space_idem}
use synthetics_operator.Api.{
  HttpProbe, DnsProbe, TcpProbe, Heartbeat, TokenSecretRef, K6Test, PlaywrightTest,
}
use synthetics_operator.Webhooks.{
  min_ℤ, second, or_default, default_interval, default_timeout, check_times, default_http_probe,
  default_dns_probe, default_tcp_probe, default_heartbeat, default_k6_test, default_playwright_test,
  default_ref,
}
use synthetics_operator.Webhooks.Errors.{IsInterval, check_times_iff}

default_http_probe_idem :
    (p : HttpProbe) → default_http_probe (default_http_probe p) ≡ default_http_probe p
unfolding default_http_probe
default_http_probe_idem p = ground (arith, str_beq_iff p.request.method "")

default_dns_probe_idem :
    (p : DnsProbe) → default_dns_probe (default_dns_probe p) ≡ default_dns_probe p
unfolding default_dns_probe
default_dns_probe_idem p = ground (arith, str_beq_iff p.query.type "")

default_tcp_probe_idem :
    (p : TcpProbe) → default_tcp_probe (default_tcp_probe p) ≡ default_tcp_probe p
unfolding default_tcp_probe
default_tcp_probe_idem p = ground (arith, trim_space_idem p.target.host)

default_ref_idem : (ref : Option TokenSecretRef) → default_ref (default_ref ref) ≡ default_ref ref
default_ref_idem none = refl
default_ref_idem (some ref) = ground (arith, str_beq_iff ref.key "")

default_heartbeat_idem :
    (h : Heartbeat) → default_heartbeat (default_heartbeat h) ≡ default_heartbeat h
unfolding default_heartbeat
default_heartbeat_idem h = ground (arith, default_ref_idem h.token_secret_ref)

default_k6_test_idem : (t : K6Test) → default_k6_test (default_k6_test t) ≡ default_k6_test t
unfolding default_k6_test
default_k6_test_idem t = ground (arith, str_beq_iff t.k6_version "")

default_playwright_test_idem :
    (t : PlaywrightTest)
    → default_playwright_test (default_playwright_test t) ≡ default_playwright_test t
unfolding default_playwright_test
default_playwright_test_idem t = ground arith

-- For each of the six kinds, an object that was defaulted is left as it is by a second call.
default_idem :
    ((p : HttpProbe) → default_http_probe (default_http_probe p) ≡ default_http_probe p)
    × ((p : DnsProbe) → default_dns_probe (default_dns_probe p) ≡ default_dns_probe p)
    × ((p : TcpProbe) → default_tcp_probe (default_tcp_probe p) ≡ default_tcp_probe p)
    × ((h : Heartbeat) → default_heartbeat (default_heartbeat h) ≡ default_heartbeat h)
    × ((t : K6Test) → default_k6_test (default_k6_test t) ≡ default_k6_test t)
    × ((t : PlaywrightTest)
        → default_playwright_test (default_playwright_test t) ≡ default_playwright_test t)
default_idem = (
  default_http_probe_idem, default_dns_probe_idem, default_tcp_probe_idem, default_heartbeat_idem,
  default_k6_test_idem, default_playwright_test_idem,
)

-- The timeout, for an interval that is positive.
default_timeout_iff :
    (interval timeout ten : ℤ)
    → pos 0 <ℤ interval
    → pos 0 <ℤ ten
    → ((pos 0 <ℤ or_default timeout (min_ℤ ten interval))
        × (or_default timeout (min_ℤ ten interval) ≤ℤ interval))
      ↔ ((timeout ≡ pos 0) ⊎ ((pos 0 <ℤ timeout) × (timeout ≤ℤ interval)))
default_timeout_iff interval timeout ten h k = ground arith

-- After the default, the times of a probe are admitted exactly when its interval is, and its timeout
-- is unset, or positive and not above the interval: a timeout that the user left out is never the
-- reason of an error.
check_times-default :
    (interval timeout : ℤ)
    → (check_times (default_interval interval) (default_timeout interval timeout) ≡ []) ↔ (
        IsInterval (default_interval interval)
        × ((timeout ≡ pos 0) ⊎ ((pos 0 <ℤ timeout) × (timeout ≤ℤ default_interval interval))))
check_times-default interval timeout =
    let times = check_times_iff (default_interval interval) (default_timeout interval timeout) in
    let cases = λ (h : pos 0 <ℤ default_interval interval).
      default_timeout_iff (default_interval interval) timeout (pos (10 * second)) h (omega arith) in
    (
      λ errs. let t = times.0 errs in (t.0, (cases t.0.0).0 (t.1, t.2)),
      λ t. let given = (cases t.0.0).1 t.1 in times.1 (t.0, given.0, given.1),
    )
