-- ===== src/Webhooks/Admitted.antt =====
-- What an object has that the webhooks admit, and what the controllers make of it.
use synthetics_operator.Shared.{
  ℕ, String, refl, ap, false, Option, none, some, [], arith, str_beq_iff, Bytes, All, ℤ, pos,
  pos_part, ◌≡◌, ◌∙◌, ◌↔◌, ◌⊎◌, ◌∷◌, ◌==◌, ◌<ℤ◌, string_eq, bytes_eq, nat_eq,
}
use synthetics_operator.Float.{Float64}
use synthetics_operator.Lifecycle.{write_interval}
use synthetics_operator.Api.{HttpProbe, K6Test, Heartbeat}
use synthetics_operator.Cron.{
  IntervalError, invalid, cron, minutes, validate_cron_interval, interval_to_cron, valid_schedule,
  Expression,
}
use synthetics_operator.Cron.Schedule.{
  RunsEvery, error_of, interval_to_cron-RunsEvery, interval_to_cron-error,
}
use synthetics_operator.Assertions.{http_assertion_vars}
use synthetics_operator.PingWriter.{throttle_for}
use synthetics_operator.Webhooks.{
  check_headers, check, check_assertions, check_times, method_required, check_parsed, check_tls,
  method_required, check, check_times, check_period, kind_http_probe, check_parsed, check_tls,
  Checks, Url, interval_error, validate_http_probe, validate_k6_test, validate_heartbeat,
  check_object,
}
use synthetics_operator.Webhooks.Errors.{
  all_errors-nil_iff, AreTimes, IsComplete, IsWritten, check_iff, check_headers_iff,
  check_assertions_iff, check_times_iff, check_tls_iff, check_object_iff, IsTls, IsSound,
}

interval_error_iff : (e : Option IntervalError) → (interval_error e ≡ []) ↔ (e ≡ none)
interval_error_iff e = ground arith

-- The expression is made, if there is no error.
made : (e : Expression) → error_of e ≡ none → (text : Bytes) × (e ≡ cron text)
made (cron text) h = (text, refl)
made (invalid err) h = absurd (ground (arith, h))

of_text : (s text : String) → (text == "") ≡ false → s ≡ text → (s == "") ≡ false
of_text s text h e = ap (λ (x : String). x == "") e ∙ h

module _ (F : Float64) (checks : Checks) where
  module _ (hash : Bytes → ℕ) (namespace name : Bytes) where
    -- An admitted load test has a schedule, by which it runs exactly once in each run of as many
    -- minutes as its interval has whole ones.
    pub validate_k6_test-schedule :
        (t : K6Test)
        → validate_k6_test F checks t ≡ []
        → (text : Bytes) × (valid_schedule hash namespace name t.interval ≡ some text)
          × RunsEvery (pos_part (minutes t.interval)) text
    unfolding validate_k6_test valid_schedule
    validate_k6_test-schedule t h =
        let admitted : validate_cron_interval t.interval ≡ none =
          (interval_error_iff (validate_cron_interval t.interval)).0
            ((all_errors-nil_iff _).0 h).0 in
        let (text, e) =
          made (interval_to_cron hash namespace name t.interval)
            (interval_to_cron-error hash namespace name t.interval ∙ admitted) in
        (text, rw e refl, interval_to_cron-RunsEvery hash namespace name t.interval text e)

  -- The status of an admitted heartbeat is throttled: whatever minimum is configured, the gap between
  -- two writes is positive.
  validate_heartbeat-throttle :
      (h : Heartbeat) (min_write_interval : ℤ)
      → validate_heartbeat F checks h ≡ []
      → pos 0 <ℤ throttle_for min_write_interval h
  unfolding validate_heartbeat write_interval
  validate_heartbeat-throttle h min_write_interval admitted =
      let period : check_period h.period ≡ [] = ((all_errors-nil_iff _).0 admitted).0 in
      ground (arith, period)

  -- The absolute URL of a request, over HTTP.
  abbrev pub IsHttpUrl : Option Url → Type 0
  IsHttpUrl none = ⊥
  IsHttpUrl (some u) = ((u.scheme ≡ "http") ⊎ (u.scheme ≡ "https")) × ((u.host == "") ≡ false)

  check_parsed_iff : (u : Option Url) → (check_parsed F checks u ≡ []) ↔ IsHttpUrl u
  check_parsed_iff none = ground arith
  check_parsed_iff (some u) = ground (
    arith,
    str_beq_iff u.scheme "http",
    str_beq_iff u.scheme "https",
    of_text u.scheme "http" refl,
    of_text u.scheme "https" refl,
  )

  -- An HTTP probe is admitted exactly when its interval is below a minute, or the whole minutes of
  -- it divide an hour, or they are whole hours that divide a day; its interval and timeout are
  -- positive and the timeout is not above the interval; it has a method; its URL is an absolute one
  -- over HTTP; each header from a Secret is named with its Secret and key; each assertion is named
  -- and written for the probe's variables; a CA that is not empty has certificates; each dependency
  -- is of a known kind, has a valid name, exists, and is neither the probe nor a repetition, and
  -- the walk from them reports neither a cycle nor a chain that is too deep; and each label's key
  -- is a Prometheus name, does not start with two underscores, and is not a label of the operator.
  pub validate_http_probe_iff :
      (p : HttpProbe)
      → (validate_http_probe F checks p ≡ []) ↔ (
          AreTimes p.interval p.timeout
          × ((p.request.method == "") ≡ false)
          × IsHttpUrl (checks.parse_url p.request.url)
          × All IsComplete p.request.headers_from
          × All (IsWritten F checks http_assertion_vars) p.assertions
          × IsTls F checks p.tls
          × IsSound F checks kind_http_probe p.object)
  unfolding validate_http_probe
  validate_http_probe_iff p = ground (
    arith,
    all_errors-nil_iff (
        check_times p.interval p.timeout
        ∷ check (p.request.method == "") method_required
        ∷ check_parsed F checks (checks.parse_url p.request.url)
        ∷ check_headers 0 p.request.headers_from
        ∷ check_assertions F checks http_assertion_vars 0 p.assertions
        ∷ check_tls F checks p.tls
        ∷ check_object F checks kind_http_probe p.object
        ∷ []),
    check_times_iff p.interval p.timeout,
    check_iff (p.request.method == "") method_required,
    check_parsed_iff (checks.parse_url p.request.url),
    check_headers_iff 0 p.request.headers_from,
    check_assertions_iff F checks http_assertion_vars 0 p.assertions,
    check_tls_iff F checks p.tls,
    check_object_iff F checks kind_http_probe p.object,
  )
