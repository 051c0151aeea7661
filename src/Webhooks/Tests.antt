-- ===== src/Webhooks/Tests.antt =====
-- Admissions of the examples, and witnesses of the theorems.
use synthetics_operator.Shared.{
  ℕ, refl, false, some, [], Bytes, codes, All, pos, pos_part, ◌+◌, ◌*◌, ◌≡◌, ◌↔◌, ◌∷◌, ◌==◌,
  string_eq, bytes_eq, nat_eq,
}
use synthetics_operator.Float.Exact.{exact}
use synthetics_operator.Assertions.{http_assertion_vars}
use synthetics_operator.Cron.{valid_schedule, minutes}
use synthetics_operator.Cron.Schedule.{RunsEvery}
use synthetics_operator.Webhooks.{
  kind_http_probe, validate_http_probe, second, timeout_above_interval,
}
use synthetics_operator.Webhooks.Admitted.{
  IsHttpUrl, validate_k6_test-schedule, validate_http_probe_iff,
}
use synthetics_operator.Webhooks.Errors.{IsTls, IsSound, IsWritten, IsComplete, AreTimes}
use synthetics_operator.Webhooks.Examples.{
  k6_test_admitted, validation, checks, http_probe, k6_test,
}

-- A timeout above the interval, of a second.
late :
    validate_http_probe exact checks (record http_probe { interval = pos second })
    ≡ timeout_above_interval ∷ []
unfolding validation
late = refl

abbrev hash : Bytes → ℕ
hash [] = 11
hash (byte ∷ bytes) = byte + 31 * hash bytes

validate_k6_test-schedule_example :
    (text : Bytes) × (valid_schedule hash (codes "ns") (codes "load") k6_test.interval ≡ some text)
    × RunsEvery (pos_part (minutes k6_test.interval)) text
validate_k6_test-schedule_example =
    validate_k6_test-schedule exact checks hash (codes "ns") (codes "load") k6_test k6_test_admitted

validate_http_probe_iff_example : (validate_http_probe exact checks http_probe ≡ []) ↔ (
    AreTimes http_probe.interval http_probe.timeout
    × ((http_probe.request.method == "") ≡ false)
    × IsHttpUrl exact checks (checks.parse_url http_probe.request.url)
    × All IsComplete http_probe.request.headers_from
    × All (IsWritten exact checks http_assertion_vars) http_probe.assertions
    × IsTls exact checks http_probe.tls
    × IsSound exact checks kind_http_probe http_probe.object)
validate_http_probe_iff_example = validate_http_probe_iff exact checks http_probe
