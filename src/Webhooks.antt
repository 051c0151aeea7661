-- ===== src/Webhooks.antt =====
-- api/v1alpha1/*_webhook.go: the defaults and the admission of the six kinds. The checks that are
-- apimachinery's or Go's net/url, net and crypto/x509 are functions of `Checks`; the text of an error
-- is left out. The warning of a changed token source is a value of the result.
pub mod Defaults
pub mod Errors
pub mod Admitted
pub mod Examples
mod Tests
use synthetics_operator.Shared.{
  ℕ, String, Bool, true, false, not, Option, none, some, List, [], map, leb, Bytes, codes, ℤ, pos,
  ltb_ℤ, leb_ℤ, ◌+◌, ◌-◌, ◌*◌, ◌&&◌, ◌||◌, ◌∷◌, ◌++◌, ◌==◌, string_eq, bytes_eq, nat_eq,
  if◌then◌else◌,
}
use synthetics_operator.Float.{Float64}
use synthetics_operator.Shared.Strings.{trim_space}
use synthetics_operator.Results.{
  Kind, kind_http_probe, kind_dns_probe, kind_tcp_probe, kind_k6_test, kind_playwright_test,
  kind_heartbeat, Assertion, TlsConfig,
}
use synthetics_operator.Shared.Graph.{member}
use synthetics_operator.Depends.{Reader, FieldError, validate_depends}
use synthetics_operator.Labels.{LabelError, validate_metric_labels}
use synthetics_operator.Assertions.{
  validate_assertion_expr, http_assertion_vars, dns_assertion_vars, tcp_assertion_vars,
}
use synthetics_operator.Cron.{
  IntervalError, minute, validate_probe_interval, validate_cron_interval,
}
use synthetics_operator.Api.{
  Object, HeaderFromSource, HttpProbe, DnsProbe, TcpProbe, Heartbeat, TokenSecretRef,
  ConfigMapKeyRef, K6Test, PlaywrightTest,
}

abbrev pub second : ℕ
second = 1000000000

abbrev pub hour : ℕ
hour = 60 * minute

-- url.URL, as far as it is read.
pub record Url : Type 0 where
  pub scheme : String
  pub host : String

pub record Checks : Type 0 where
  pub reader : Reader
  -- validation.IsDNS1123Subdomain, of a name and of a host, and validation.IsConfigMapKey
  pub is_dns1123_subdomain : String → Bool
  pub is_dns_host : Bytes → Bool
  pub is_config_map_key : String → Bool
  -- url.Parse, net.SplitHostPort, net.ParseIP, and AppendCertsFromPEM of a new pool
  pub parse_url : String → Option Url
  pub split_host_port : String → Option (String × String)
  pub is_ip : Bytes → Bool
  pub has_certificates : Bytes → Bool

-- The field errors, by the check that finds them. A number is an index of the field's path.
pub data SpecError : Type 0 where
  bad_interval : IntervalError → SpecError
  timeout_not_positive timeout_above_interval : SpecError
  method_required bad_url unsupported_scheme bad_ca_cert : SpecError
  header_name_required secret_name_required secret_key_required : ℕ → SpecError
  assertion_name_required bad_assertion : ℕ → SpecError
  query_name_required unsupported_type bad_resolver : SpecError
  host_required bad_host bad_port : SpecError
  period_required period_too_short negative_grace : SpecError
  token_name_required bad_token_name bad_token_key : SpecError
  version_required config_map_name_required config_map_key_required : SpecError
  depends_error : FieldError → SpecError
  label_error : LabelError → SpecError

-- if bad { allErrs = append(allErrs, …) }
abbrev pub check : Bool → SpecError → List SpecError
check bad e = if bad then e ∷ [] else []

-- defaultIntervalTimeout
abbrev pub or_default : ℤ → ℤ → ℤ
or_default d default = if leb_ℤ d (pos 0) && leb_ℤ (pos 0) d then default else d

abbrev pub default_interval : ℤ → ℤ
default_interval interval = or_default interval (pos (30 * second))

abbrev pub min_ℤ : ℤ → ℤ → ℤ
min_ℤ a b = if leb_ℤ a b then a else b

abbrev pub default_timeout : ℤ → ℤ → ℤ
default_timeout interval timeout =
    or_default timeout (min_ℤ (pos (10 * second)) (default_interval interval))

abbrev or_text : String → String → String
or_text text default = if text == "" then default else text

unfoldable pub default_http_probe : HttpProbe → HttpProbe
default_http_probe p = record p {
  interval = default_interval p.interval;
  timeout = default_timeout p.interval p.timeout;
  request = record {
    url = p.request.url;
    method = or_text p.request.method "GET";
    headers = p.request.headers;
    headers_from = p.request.headers_from;
    body = p.request.body;
  };
}

unfoldable pub default_dns_probe : DnsProbe → DnsProbe
default_dns_probe p = record p {
  interval = default_interval p.interval;
  timeout = default_timeout p.interval p.timeout;
  query = record {
    name = p.query.name;
    type = or_text p.query.type "A";
    resolver = p.query.resolver;
  };
}

unfoldable pub default_tcp_probe : TcpProbe → TcpProbe
default_tcp_probe p = record p {
  interval = default_interval p.interval;
  timeout = default_timeout p.interval p.timeout;
  target = record { host = trim_space p.target.host; port = p.target.port };
}

abbrev pub default_ref : Option TokenSecretRef → Option TokenSecretRef
default_ref none = none
default_ref (some ref) = some (record { name = ref.name; key = or_text ref.key "token" })

unfoldable pub default_heartbeat : Heartbeat → Heartbeat
default_heartbeat h = record h {
  grace = or_default h.grace h.period;
  token_secret_ref = default_ref h.token_secret_ref;
}

unfoldable pub default_k6_test : K6Test → K6Test
default_k6_test t = record t {
  interval = or_default t.interval (pos hour);
  ttl_after_finished = or_default t.ttl_after_finished (pos hour);
  k6_version = or_text t.k6_version "0.50.0";
}

unfoldable pub default_playwright_test : PlaywrightTest → PlaywrightTest
default_playwright_test t = record t {
  interval = or_default t.interval (pos hour);
  ttl_after_finished = or_default t.ttl_after_finished (pos hour);
}

-- allErrs, in the order in which the checks append to it.
unfoldable pub all_errors : List (List SpecError) → List SpecError
all_errors [] = []
all_errors (errs ∷ rest) = errs ++ all_errors rest

abbrev pub interval_error : Option IntervalError → List SpecError
interval_error none = []
interval_error (some e) = bad_interval e ∷ []

-- The checks of interval and timeout that the three kinds of probe share.
unfoldable pub check_times : ℤ → ℤ → List SpecError
check_times interval timeout =
    interval_error (validate_probe_interval interval)
    ++ check (leb_ℤ timeout (pos 0)) timeout_not_positive
    ++ check (ltb_ℤ (pos 0) interval && ltb_ℤ interval timeout) timeout_above_interval

unfoldable pub check_headers : ℕ → List HeaderFromSource → List SpecError
check_headers i [] = []
check_headers i (h ∷ hs) =
    check (h.name == "") (header_name_required i)
    ++ check (h.secret_key_ref.name == "") (secret_name_required i)
    ++ check (h.secret_key_ref.key == "") (secret_key_required i)
    ++ check_headers (i + 1) hs

-- strings.TrimSpace(s) == "": every code point is one of unicode.IsSpace.
abbrev is_space_point : ℕ → Bool
is_space_point c =
    leb 9 c && leb c 13
    || c == 32
    || c == 0x85
    || c == 0xa0
    || c == 0x1680
    || leb 0x2000 c && leb c 0x200a
    || c == 0x2028
    || c == 0x2029
    || c == 0x202f
    || c == 0x205f
    || c == 0x3000

unfoldable pub is_blank : List ℕ → Bool
is_blank [] = true
is_blank (c ∷ s) = is_space_point c && is_blank s

-- strings.ToUpper, where it gives an ASCII letter: two other letters have one as their upper case.
abbrev to_upper_point : ℕ → ℕ
to_upper_point c =
    if leb b'a' c && leb c b'z'
    then c - 32
    else if c == 0x131
    then b'I'
    else if c == 0x17f
    then b'S'
    else c

unfoldable pub to_upper : List ℕ → List ℕ
to_upper [] = []
to_upper (c ∷ s) = to_upper_point c ∷ to_upper s

abbrev pub dns_types : List Bytes
dns_types =
    codes "A"
    ∷ codes "AAAA"
    ∷ codes "CNAME"
    ∷ codes "MX"
    ∷ codes "TXT"
    ∷ codes "NS"
    ∷ codes "PTR"
    ∷ []

-- strings.TrimSuffix(s, ".")
unfoldable pub trim_dot : Bytes → Bytes
trim_dot [] = []
trim_dot (c ∷ []) = if c == b'.' then [] else c ∷ []
trim_dot (c ∷ d ∷ s) = c ∷ trim_dot (d ∷ s)

abbrev pub check_period : ℤ → List SpecError
check_period period =
    if leb_ℤ period (pos 0)
    then period_required ∷ []
    else check (ltb_ℤ period (pos second)) period_too_short

abbrev check_script : ConfigMapKeyRef → List SpecError
check_script script =
    check (script.name == "") config_map_name_required
    ++ check (script.key == "") config_map_key_required

-- *old.Spec.TokenSecretRef != *updated.Spec.TokenSecretRef, and the cases of nil
abbrev pub differs : Option TokenSecretRef → Option TokenSecretRef → Bool
differs none none = false
differs none (some _) = true
differs (some _) none = true
differs (some a) (some b) = not (a.name == b.name && a.key == b.key)

module _ (F : Float64) (checks : Checks) where
  open checks use {
    is_dns1123_subdomain, is_dns_host, is_config_map_key, parse_url, split_host_port, is_ip,
    has_certificates, reader,
  }

  unfoldable pub check_assertions : List Bytes → ℕ → List Assertion → List SpecError
  check_assertions vars i [] = []
  check_assertions vars i (a ∷ rest) =
      check (a.name == "") (assertion_name_required i)
      ++ check (not (validate_assertion_expr F a.expr vars)) (bad_assertion i)
      ++ check_assertions vars (i + 1) rest

  -- The last two checks of every kind.
  unfoldable pub check_object : Kind → Object → List SpecError
  check_object kind o =
      map depends_error (
        validate_depends reader o.namespace is_dns1123_subdomain
          (record { kind = kind; name = o.name }) o.depends)
      ++ map label_error (validate_metric_labels o.metric_labels)

  abbrev pub check_parsed : Option Url → List SpecError
  check_parsed none = bad_url ∷ []
  check_parsed (some u) =
      if u.scheme == "" || u.host == ""
      then bad_url ∷ []
      else check (not (u.scheme == "http" || u.scheme == "https")) unsupported_scheme

  abbrev pub check_tls : Option TlsConfig → List SpecError
  check_tls none = []
  check_tls (some tls) =
      check (not (tls.ca_cert == []) && not (has_certificates tls.ca_cert)) bad_ca_cert

  unfoldable pub validate_http_probe : HttpProbe → List SpecError
  validate_http_probe p = all_errors (
      check_times p.interval p.timeout
      ∷ check (p.request.method == "") method_required
      ∷ check_parsed (parse_url p.request.url)
      ∷ check_headers 0 p.request.headers_from
      ∷ check_assertions http_assertion_vars 0 p.assertions
      ∷ check_tls p.tls
      ∷ check_object kind_http_probe p.object
      ∷ [])

  abbrev pub is_address : Option (String × String) → Bool
  is_address none = false
  is_address (some (host, port)) = not (host == "" || port == "")

  unfoldable pub validate_dns_probe : DnsProbe → List SpecError
  validate_dns_probe p = all_errors (
      check_times p.interval p.timeout
      ∷ check (is_blank (codes p.query.name)) query_name_required
      ∷ check (not (member (to_upper (codes p.query.type)) dns_types)) unsupported_type
      ∷ check (not (p.query.resolver == "") && not (is_address (split_host_port p.query.resolver)))
          bad_resolver
      ∷ check_assertions dns_assertion_vars 0 p.assertions
      ∷ check_object kind_dns_probe p.object
      ∷ [])

  abbrev pub check_host : Bytes → List SpecError
  check_host [] = host_required ∷ []
  check_host (c ∷ s) = check (not (is_ip (c ∷ s)) && not (is_dns_host (trim_dot (c ∷ s)))) bad_host

  unfoldable pub validate_tcp_probe : TcpProbe → List SpecError
  validate_tcp_probe p = all_errors (
      check_times p.interval p.timeout
      ∷ check_host (trim_space p.target.host)
      ∷ check (ltb_ℤ p.target.port (pos 1) || ltb_ℤ (pos 65535) p.target.port) bad_port
      ∷ check_assertions tcp_assertion_vars 0 p.assertions
      ∷ check_object kind_tcp_probe p.object
      ∷ [])

  unfoldable pub validate_token_secret_ref : Option TokenSecretRef → List SpecError
  validate_token_secret_ref none = []
  validate_token_secret_ref (some ref) =
      (if ref.name == ""
        then token_name_required ∷ []
        else check (not (is_dns1123_subdomain ref.name)) bad_token_name)
      ++ check (not (ref.key == "") && not (is_config_map_key ref.key)) bad_token_key

  unfoldable pub validate_heartbeat : Heartbeat → List SpecError
  validate_heartbeat h = all_errors (
      check_period h.period
      ∷ check (ltb_ℤ h.grace (pos 0)) negative_grace
      ∷ validate_token_secret_ref h.token_secret_ref
      ∷ check_object kind_heartbeat h.object
      ∷ [])

  unfoldable pub validate_k6_test : K6Test → List SpecError
  validate_k6_test t = all_errors (
      interval_error (validate_cron_interval t.interval)
      ∷ check (t.k6_version == "") version_required
      ∷ check_script t.script
      ∷ check_object kind_k6_test t.object
      ∷ [])

  unfoldable pub validate_playwright_test : PlaywrightTest → List SpecError
  validate_playwright_test t = all_errors (
      interval_error (validate_cron_interval t.interval)
      ∷ check_script t.script
      ∷ check_object kind_playwright_test t.object
      ∷ [])

  unfoldable pub token_source_changed : Heartbeat → Heartbeat → Bool
  token_source_changed old updated = differs old.token_secret_ref updated.token_secret_ref

  -- ValidateUpdate of a heartbeat: the errors, or whether the warning is given.
  unfoldable pub validate_heartbeat_update : Heartbeat → Heartbeat → List SpecError × Bool
  validate_heartbeat_update old updated = elim (validate_heartbeat updated) [
    | [] ↦ ([], token_source_changed old updated)
    | e ∷ es ↦ (e ∷ es, false)
  ]
