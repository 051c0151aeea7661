-- ===== src/Specs.antt =====
-- controllers/specs.go and controllers/http_headers.go: the message that each object is broadcast
-- as.
pub mod Headers
pub mod Reseed
mod Tests
use synthetics_operator.Shared.{
  suc, String, true, false, Option, none, some, List, [], Bytes, ℤ, pos, negsuc, sub_ℕ, ◌/◌, ◌∷◌,
  string_eq, bytes_eq, nat_eq,
}
use synthetics_operator.Shared.Dict.{Dict, lookup, insert}
use synthetics_operator.Api.{
  Object, HeaderFromSource, HttpRequestSpec, HttpProbe, DnsProbe, TcpProbe, Heartbeat, K6Test,
  PlaywrightTest,
}
use synthetics_operator.Results.{
  Kind, kind_http_probe, kind_dns_probe, kind_tcp_probe, kind_k6_test, kind_playwright_test,
  kind_heartbeat, Time, NamespacedName, DependencyRef, Assertion, TlsConfig, HttpProbeSpecPayload,
  DnsProbeSpecPayload, TcpProbeSpecPayload, HeartbeatSpecPayload, SpecUpdate,
}

-- Duration.Milliseconds of a duration in nanoseconds: the quotient, cut towards zero.
abbrev pub milliseconds : ℤ → ℤ
milliseconds (pos n) = pos (n / 1000000)
milliseconds (negsuc n) = sub_ℕ 0 (suc n / 1000000)

-- toDependsRefs. The kind is converted from string to string.
unfoldable pub to_depends_refs : List DependencyRef → List DependencyRef
to_depends_refs [] = []
to_depends_refs (d ∷ ds) = record { kind = d.kind; name = d.name } ∷ to_depends_refs ds

unfoldable pub to_assertions : List Assertion → List Assertion
to_assertions [] = []
to_assertions (a ∷ rest) = record { name = a.name; expr = a.expr } ∷ to_assertions rest

-- The fields that every builder but the tombstone fills from the object; the others have their zero
-- value.
abbrev object_update : Kind → Object → ℤ → SpecUpdate
object_update kind object interval_ms = record {
  kind = kind;
  name = object.name;
  namespace = object.namespace;
  generation = object.generation;
  deleted = false;
  suspend = object.suspend;
  interval_ms = interval_ms;
  depends = to_depends_refs object.depends;
  metric_labels = object.metric_labels;
  http_probe = none;
  dns_probe = none;
  tcp_probe = none;
  heartbeat = none;
}

abbrev tls_payload : Option TlsConfig → Option TlsConfig
tls_payload none = none
tls_payload (some tls) =
    some (record { insecure_skip_verify = tls.insecure_skip_verify; ca_cert = tls.ca_cert })

unfoldable pub http_probe_spec_update : HttpProbe → Dict String Bytes → SpecUpdate
http_probe_spec_update p headers =
    record (object_update kind_http_probe p.object (milliseconds p.interval)) {
      http_probe = some (record {
        timeout_ms = milliseconds p.timeout;
        url = p.request.url;
        method = p.request.method;
        headers = headers;
        body = p.request.body;
        tls = tls_payload p.tls;
        assertions = to_assertions p.assertions;
      });
    }

unfoldable pub dns_probe_spec_update : DnsProbe → SpecUpdate
dns_probe_spec_update p = record (object_update kind_dns_probe p.object (milliseconds p.interval)) {
  dns_probe = some (record {
    timeout_ms = milliseconds p.timeout;
    name = p.query.name;
    type = p.query.type;
    resolver = p.query.resolver;
    assertions = to_assertions p.assertions;
  });
}

unfoldable pub tcp_probe_spec_update : TcpProbe → SpecUpdate
tcp_probe_spec_update p = record (object_update kind_tcp_probe p.object (milliseconds p.interval)) {
  tcp_probe = some (record {
    timeout_ms = milliseconds p.timeout;
    host = p.target.host;
    port = p.target.port;
    assertions = to_assertions p.assertions;
  });
}

-- time.Time.Unix, or the zero value without a ping.
abbrev pub unix_or_zero : Option Time → ℤ
unix_or_zero none = pos 0
unix_or_zero (some t) = t.unix

unfoldable pub heartbeat_spec_update : Heartbeat → Bytes → SpecUpdate
heartbeat_spec_update h token = record (object_update kind_heartbeat h.object (pos 0)) {
  heartbeat = some (record {
    token = token;
    period_ms = milliseconds h.period;
    grace_ms = milliseconds h.grace;
    last_ping_unix = unix_or_zero h.status.last_ping_time;
    last_result = h.status.last_result;
  });
}

unfoldable pub k6_test_spec_update : K6Test → SpecUpdate
k6_test_spec_update t = object_update kind_k6_test t.object (milliseconds t.interval)

unfoldable pub playwright_test_spec_update : PlaywrightTest → SpecUpdate
playwright_test_spec_update t =
    object_update kind_playwright_test t.object (milliseconds t.interval)

unfoldable pub tombstone : Kind → String → String → SpecUpdate
tombstone kind namespace name = record {
  kind = kind;
  name = name;
  namespace = namespace;
  generation = pos 0;
  deleted = true;
  suspend = false;
  interval_ms = pos 0;
  depends = [];
  metric_labels = [];
  http_probe = none;
  dns_probe = none;
  tcp_probe = none;
  heartbeat = none;
}

-- maps.Copy; its order does not matter, since a map has a key once.
unfoldable pub copy : Dict String Bytes → Dict String Bytes → Dict String Bytes
copy into [] = into
copy into ((k, v) ∷ m) = insert k v (copy into m)

-- `read` is the client's Get of a Secret: its data, or none on an error.
module _ (read : NamespacedName → Option (Dict String Bytes)) (namespace : String) where
  -- One round of the loop: none where the Secret or its key is missing.
  abbrev pub secret_value : HeaderFromSource → Option Bytes
  secret_value h = elim (read (record { namespace = namespace; name = h.secret_key_ref.name })) [
    | none ↦ none
    | some values ↦ lookup h.secret_key_ref.key values
  ]

  abbrev pub put_header : String → Option Bytes → Dict String Bytes → Option (Dict String Bytes)
  put_header name none merged = none
  put_header name (some value) merged = some (insert name value merged)

  unfoldable pub resolve_from :
      List HeaderFromSource → Option (Dict String Bytes) → Option (Dict String Bytes)
  resolve_from hs none = none
  resolve_from [] (some merged) = some merged
  resolve_from (h ∷ hs) (some merged) = resolve_from hs (put_header h.name (secret_value h) merged)

  -- Without sources the literal map is returned as it is.
  abbrev pub resolve_sources :
      List HeaderFromSource → Dict String Bytes → Option (Dict String Bytes)
  resolve_sources [] headers = some headers
  resolve_sources (h ∷ hs) headers = resolve_from (h ∷ hs) (some (copy [] headers))

  unfoldable pub resolve_request_headers : HttpRequestSpec → Option (Dict String Bytes)
  resolve_request_headers req = resolve_sources req.headers_from req.headers
