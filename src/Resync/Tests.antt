-- ===== src/Resync/Tests.antt =====
-- A resync of the example objects, and the witness of the theorem.
use synthetics_operator.Shared.{
  String, Bool, true, refl, sym, inl, inr, Option, none, some, [], arith, Bytes, codes, ◌≡◌, ◌∷◌,
  ◌==◌, string_eq, bytes_eq, nat_eq,
}
use synthetics_operator.Shared.Dict.{Dict}
use synthetics_operator.Results.{NamespacedName, SpecUpdate, kind_heartbeat}
use synthetics_operator.Api.{Heartbeat}
use synthetics_operator.Specs.{
  resolve_request_headers, resolve_from, heartbeat_spec_update, dns_probe_spec_update,
}
use synthetics_operator.Specs.Reseed.{name_of}
use synthetics_operator.Receiver.{cold, lookup_token}
use synthetics_operator.Receiver.Index.{run}
use synthetics_operator.Webhooks.Examples.{http_probe, dns_probe, heartbeat}
use synthetics_operator.Resync.{Lists, resync, each, publish_each}
use synthetics_operator.Resync.Recovery.{IsAlone, resync-served}

-- No Secret can be read, and every heartbeat has the token of the example.
abbrev read : NamespacedName → Option (Dict String Bytes)
read name = none

abbrev token : Bytes
token = codes "hb_abcdefghijklmnopqrstuvwxyz234567"

abbrev reader : Heartbeat → Option Bytes
reader h = some token

abbrev lists : Lists
lists = record {
  http_probes = some (http_probe ∷ []);
  dns_probes = some (dns_probe ∷ []);
  tcp_probes = none;
  k6_tests = some [];
  heartbeats = some (heartbeat ∷ []);
  playwright_tests = some [];
}

-- The headers of the HTTP probe do not resolve, and it is skipped.
resynced :
    resync read (some reader) lists
    ≡ dns_probe_spec_update dns_probe ∷ heartbeat_spec_update heartbeat token ∷ []
unfolding resync each resolve_request_headers resolve_from
resynced = refl

alone : IsAlone read reader lists heartbeat token
alone other (inl same) found = sym same
alone other (inr more) found = absurd more

-- The publisher takes the messages of heartbeats only.
abbrev takes : SpecUpdate → Bool
takes msg = msg.kind == kind_heartbeat

published :
    publish_each takes (resync read (some reader) lists)
    ≡ heartbeat_spec_update heartbeat token ∷ []
unfolding resync each resolve_request_headers resolve_from publish_each dns_probe_spec_update
    heartbeat_spec_update
published = refl

taken : takes (heartbeat_spec_update heartbeat token) ≡ true
unfolding heartbeat_spec_update
taken = refl

resync-served_example :
    lookup_token (run (publish_each takes (resync read (some reader) lists)) cold) token
    ≡ some (name_of heartbeat)
resync-served_example =
    resync-served read reader lists heartbeat token takes taken (λ e. ground (arith, e)) refl
      (inl refl) refl alone
