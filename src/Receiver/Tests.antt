-- ===== src/Receiver/Tests.antt =====
-- Runs of the receiver, and witnesses of its theorems.
use synthetics_operator.Shared.{
  some_inj, String, refl, ap, Bool, true, false, none, some, List, [], string_eq, Bytes, codes,
  bytes_beq, bytes_eq, All, pos, ◌≡◌, ◌≢◌, ◌↔◌, ◌∷◌, ◌==◌, nat_eq,
}
use synthetics_operator.Shared.Dict.{lookup, insert, erase}
use synthetics_operator.Results.{
  kind_heartbeat, name_eq, NamespacedName, Time, HeartbeatPing, SpecUpdate,
}
use synthetics_operator.Receiver.{
  Request, Outcome, cold, on_spec, serve_ping, lookup_token, parse_path, run_ok, accepted,
  not_found, still_loading, publish_failed, parse_suffix, parse_segments, acceptable_token,
  all_unreserved, base32_run, valid_token, ping_of, read_output,
}
use synthetics_operator.Receiver.Index.{run, current, lookup_token-current}
use synthetics_operator.Receiver.Served.{IsExclusive, lookup_token_iff, lookup_token-shared}
use synthetics_operator.Receiver.Serving.{serve_ping-current}
use synthetics_operator.Receiver.Paths.{parse_path-token}
use synthetics_operator.Shared.Strings.{trim, trim_left, split, atoi, digits}

abbrev spec_of : String → Bytes → SpecUpdate
spec_of name token = record {
  kind = kind_heartbeat;
  name = name;
  namespace = "ns";
  generation = pos 1;
  deleted = false;
  suspend = false;
  interval_ms = pos 0;
  depends = [];
  metric_labels = [];
  http_probe = none;
  dns_probe = none;
  tcp_probe = none;
  heartbeat = some (record {
    token = token;
    period_ms = pos 60000;
    grace_ms = pos 0;
    last_ping_unix = pos 0;
    last_result = "";
  });
}

abbrev old_token : Bytes
old_token = codes "hb_abcdefghijklmnop"

abbrev fresh_token : Bytes
fresh_token = codes "hb_ponmlkjihgfedcba"

abbrev gone : SpecUpdate
gone = record (spec_of "backup" []) { deleted = true; heartbeat = none }

abbrev rotated : List SpecUpdate
rotated =
    spec_of "backup" old_token
    ∷ spec_of "report" (codes "report-0123456789")
    ∷ spec_of "backup" fresh_token
    ∷ []

abbrev named : String → NamespacedName
named name = record { namespace = "ns"; name = name }

abbrev get : Bytes → Request
get path = record { method = "GET"; path = path; body = none }

abbrev at_noon : Time
at_noon = record { unix = pos 43200; nsec = 0 }

abbrev always : HeartbeatPing → Bool
always p = true

abbrev never : HeartbeatPing → Bool
never p = false

receiver : Unit {0}
unfolding bytes_beq run current on_spec lookup insert erase lookup_token serve_ping parse_path
    parse_segments parse_suffix acceptable_token all_unreserved trim trim_left split atoi digits
    ping_of read_output
receiver = tt

tokens :
    (lookup_token (run rotated cold) fresh_token ≡ some (named "backup"))
    × (lookup_token (run rotated cold) old_token ≡ none)
    × (current (named "backup") rotated none ≡ some fresh_token)
unfolding receiver
tokens = (refl, refl, refl)

statuses :
    ((serve_ping always (run rotated cold) at_noon (get (b'/' ∷ fresh_token))).1 ≡ accepted)
    × ((serve_ping never (run rotated cold) at_noon (get (b'/' ∷ fresh_token))).1 ≡ publish_failed)
    × ((serve_ping always (run rotated cold) at_noon (get (b'/' ∷ old_token))).1 ≡ not_found)
    × ((serve_ping always cold at_noon (get (b'/' ∷ old_token))).1 ≡ still_loading)
    × ((serve_ping always cold at_noon (get (codes "/short"))).1 ≡ not_found)
unfolding receiver
statuses = (refl, refl, refl, refl, refl)

paths :
    (parse_path (codes "/report-0123456789/3/")
      ≡ some (codes "report-0123456789", record { failed = true; exit_code = pos 3 }))
    × (parse_path (codes "/report-0123456789/fail")
        ≡ some (codes "report-0123456789", record { failed = true; exit_code = pos 0 }))
    × (parse_path (codes "/report-0123456789/-1") ≡ none)
    × (parse_path (codes "/report-0123456789/0/0") ≡ none)
unfolding receiver
paths = (refl, refl, refl, refl)

generated : valid_token (codes "hb_abcdefghijklmnopqrstuvwxyz234567") ≡ true
unfolding valid_token base32_run
generated = refl

other_bytes : (s t : Bytes) → (s == t) ≡ false → s ≢ t
other_bytes s t h e = cc (h, (bytes_eq.beq_iff s t).1 e)

other_name : (s t : String) → (s == t) ≡ false → s ≢ t
other_name s t h e = cc (h, (string_eq.beq_iff s t).1 e)

exclusive : All (IsExclusive fresh_token (named "backup")) rotated
unfolding receiver
exclusive = (
  λ _ e. refl,
  (
    λ _ e. absurd (other_bytes (codes "report-0123456789") fresh_token refl (some_inj e)),
    (λ _ e. refl, tt),
  ),
)

lookup_token-current_example : current (named "backup") rotated none ≡ some fresh_token
lookup_token-current_example = lookup_token-current rotated fresh_token (named "backup") tokens.0

lookup_token_iff_example :
    (lookup_token (run rotated cold) fresh_token ≡ some (named "backup"))
    ↔ (current (named "backup") rotated none ≡ some fresh_token)
lookup_token_iff_example = lookup_token_iff fresh_token (named "backup") rotated exclusive

lookup_token-shared_example :
    (lookup_token
        (run (spec_of "backup" old_token ∷ spec_of "copy" old_token ∷ gone ∷ []) cold)
        old_token
      ≡ none)
    × (lookup
          (named "copy")
          (run (spec_of "backup" old_token ∷ spec_of "copy" old_token ∷ gone ∷ []) cold).tokens
        ≡ some old_token)
unfolding bytes_beq
lookup_token-shared_example =
    lookup_token-shared old_token (spec_of "backup" old_token) (spec_of "copy" old_token) gone cold
      (refl, refl) (refl, refl) (refl, refl) refl
      (λ e. other_name "copy" "backup" refl (ap (λ (n : NamespacedName). n.name) e))

published :
    (serve_ping always (run rotated cold) at_noon (get (b'/' ∷ fresh_token))).0
    ≡ some (ping_of (get []) at_noon (named "backup") run_ok)
unfolding receiver
published = refl

serve_ping-current_example :
    (token : Bytes) × (outcome : Outcome) × (parse_path (b'/' ∷ fresh_token)
      ≡ some (token, outcome))
    × (current (named "backup") rotated none ≡ some token)
unfolding receiver
serve_ping-current_example =
    serve_ping-current always rotated at_noon (get (b'/' ∷ fresh_token))
      (ping_of (get []) at_noon (named "backup") run_ok) published

acceptable : acceptable_token old_token ≡ true
unfolding receiver
acceptable = refl

parse_path-token_example : parse_path (b'/' ∷ old_token) ≡ some (old_token, run_ok)
parse_path-token_example = parse_path-token old_token acceptable
