-- ===== src/Specs/Tests.antt =====
-- Builds of messages, and witnesses of the theorems on them.
use synthetics_operator.Shared.{
  String, refl, false, Option, none, some, List, [], Bytes, codes, pos, negsuc, ◌≡◌, ◌∷◌, ◌==◌,
  string_eq, bytes_eq, nat_eq, if◌then◌else◌,
}
use synthetics_operator.Shared.Dict.{Dict, lookup, insert}
use synthetics_operator.Float.Exact.{exact}
use synthetics_operator.Results.{Time, NamespacedName, name_eq, kind_http_probe}
use synthetics_operator.Metrics.{new_store, key_eq}
use synthetics_operator.Api.{Heartbeat, HeaderFromSource, HttpRequestSpec}
use synthetics_operator.Specs.{copy, resolve_from, resolve_request_headers, milliseconds}
use synthetics_operator.Specs.Reseed.{key_of}

abbrev noon : Time
noon = record { unix = pos 43200; nsec = 5 }

abbrev backup : Heartbeat
backup = record {
  object = record {
    name = "backup";
    namespace = "ns";
    generation = pos 2;
    deleting = false;
    suspend = false;
    depends = record { kind = kind_http_probe; name = "db" } ∷ [];
    metric_labels = [];
  };
  period = pos 60000000000;
  grace = pos 0;
  token_secret_ref = none;
  status = record {
    observed_generation = pos 1;
    conditions = [];
    url = [];
    token_secret_name = "";
    last_ping_time = some noon;
    last_result = "failed";
  };
}

-- Two secrets in the namespace.
abbrev secrets : NamespacedName → Option (Dict String Bytes)
secrets name =
    if name == record { namespace = "ns"; name = "api" }
    then some (("token", codes "s3cret") ∷ ("old", codes "0ld") ∷ [])
    else none

abbrev from : String → String → String → HeaderFromSource
from header secret key = record {
  name = header;
  secret_key_ref = record { name = secret; key = key };
}

abbrev request : List HeaderFromSource → HttpRequestSpec
request headers_from = record {
  url = "https://api.example.com";
  method = "GET";
  headers = ("Authorization", codes "none") ∷ ("Accept", codes "text/plain") ∷ [];
  headers_from = headers_from;
  body = [];
}

resolving : Unit {0}
unfolding copy resolve_from resolve_request_headers lookup insert
resolving = tt

abbrev sources : List HeaderFromSource
sources = from "Authorization" "api" "old" ∷ from "Authorization" "api" "token" ∷ []

resolved :
    resolve_request_headers secrets "ns" (request sources)
    ≡ some (("Accept", codes "text/plain") ∷ ("Authorization", codes "s3cret") ∷ [])
unfolding resolving
resolved = refl

unresolved :
    (resolve_request_headers secrets "ns" (request (from "X" "api" "none" ∷ sources)) ≡ none)
    × (resolve_request_headers secrets "ns" (request (from "X" "web" "token" ∷ [])) ≡ none)
unfolding resolving
unresolved = (refl, refl)

rounded : (milliseconds (pos 1999999) ≡ pos 1) × (milliseconds (negsuc 1999999) ≡ negsuc 1)
rounded = (refl, refl)

abbrev merged : Dict String Bytes
merged = ("Accept", codes "text/plain") ∷ ("Authorization", codes "s3cret") ∷ []

no_beat : lookup (key_of backup) (new_store exact).heartbeats ≡ none
unfolding lookup
no_beat = refl
