-- ===== src/Resync.antt =====
-- controllers/spec_resync.go: the messages that one resync hands to `publish`, and those of them that
-- the publisher takes. An error of the publisher, or of a list, is only logged; a list that fails is
-- none here. Start only decides when a resync runs.
pub mod Messages
pub mod Recovery
mod Tests
use synthetics_operator.Shared.{
  String, Bool, Option, none, some, List, [], Bytes, ◌∷◌, ◌++◌, if◌then◌else◌,
}
use synthetics_operator.Shared.Dict.{Dict}
use synthetics_operator.Results.{NamespacedName, SpecUpdate}
use synthetics_operator.Api.{
  Object, HttpProbe, DnsProbe, TcpProbe, Heartbeat, K6Test, PlaywrightTest,
}
use synthetics_operator.Specs.{
  dns_probe_spec_update, tcp_probe_spec_update, k6_test_spec_update, playwright_test_spec_update,
  heartbeat_spec_update,
}
use synthetics_operator.Reconcilers.{build_http}

pub record Lists : Type 0 where
  pub http_probes : Option (List HttpProbe)
  pub dns_probes : Option (List DnsProbe)
  pub tcp_probes : Option (List TcpProbe)
  pub k6_tests : Option (List K6Test)
  pub heartbeats : Option (List Heartbeat)
  pub playwright_tests : Option (List PlaywrightTest)

-- publish, for each message that is handed to it: one that the publisher does not take is only logged.
unfoldable pub publish_each : (SpecUpdate → Bool) → List SpecUpdate → List SpecUpdate
publish_each takes [] = []
publish_each takes (msg ∷ rest) =
    let published = publish_each takes rest in if takes msg then msg ∷ published else published

abbrev pub put : Option SpecUpdate → List SpecUpdate → List SpecUpdate
put none rest = rest
put (some msg) rest = msg ∷ rest

-- The loop over the items of a list.
unfoldable pub each : {A : Type 0} → (A → Option SpecUpdate) → List A → List SpecUpdate
each f [] = []
each f (x ∷ xs) = put (f x) (each f xs)

abbrev pub items : {A : Type 0} → Option (List A) → List A
items none = []
items (some xs) = xs

abbrev pub unless_deleting : Object → Option SpecUpdate → Option SpecUpdate
unless_deleting o msg = if o.deleting then none else msg

abbrev pub resync_dns_probe : DnsProbe → Option SpecUpdate
resync_dns_probe p = unless_deleting p.object (some (dns_probe_spec_update p))

abbrev pub resync_tcp_probe : TcpProbe → Option SpecUpdate
resync_tcp_probe p = unless_deleting p.object (some (tcp_probe_spec_update p))

abbrev pub resync_k6_test : K6Test → Option SpecUpdate
resync_k6_test t = unless_deleting t.object (some (k6_test_spec_update t))

abbrev pub resync_playwright_test : PlaywrightTest → Option SpecUpdate
resync_playwright_test t = unless_deleting t.object (some (playwright_test_spec_update t))

-- Token of the reader, or none where it cannot be resolved.
abbrev pub beat_message : Heartbeat → Option Bytes → Option SpecUpdate
beat_message h none = none
beat_message h (some token) = some (heartbeat_spec_update h token)

abbrev pub resync_heartbeat : (Heartbeat → Option Bytes) → Heartbeat → Option SpecUpdate
resync_heartbeat token h = unless_deleting h.object (beat_message h (token h))

-- `reader` is the TokenReader, or none without one.
abbrev resync_heartbeats :
    Option (Heartbeat → Option Bytes) → Option (List Heartbeat) → List SpecUpdate
resync_heartbeats none beats = []
resync_heartbeats (some token) beats = each (resync_heartbeat token) (items beats)

module _ (read : NamespacedName → Option (Dict String Bytes)) where
  abbrev pub resync_http_probe : HttpProbe → Option SpecUpdate
  resync_http_probe p = unless_deleting p.object (build_http read p)

  unfoldable pub resync : Option (Heartbeat → Option Bytes) → Lists → List SpecUpdate
  resync reader lists =
      each resync_http_probe (items lists.http_probes)
      ++ (each resync_dns_probe (items lists.dns_probes)
          ++ (each resync_tcp_probe (items lists.tcp_probes)
              ++ (each resync_k6_test (items lists.k6_tests)
                  ++ (resync_heartbeats reader lists.heartbeats
                      ++ each resync_playwright_test (items lists.playwright_tests)))))
