-- ===== src/Receiver.antt =====
-- internal/heartbeat/receiver.go and token.go: the token index that is built from the spec stream,
-- and the handler that turns a ping URL into a published HeartbeatPing. The request is what
-- net/http hands on; whether the bus takes a message is an argument.
pub mod Paths
pub mod Index
pub mod Served
pub mod Serving
mod Tests
use synthetics_operator.Shared.{
  ℕ, zero, suc, String, Bool, true, false, not, Option, none, some, List, [], leb, Bytes, codes,
  length, ℤ, pos, ltb_ℤ, ◌&&◌, ◌||◌, ◌∷◌, ◌==◌, string_eq, bytes_eq, nat_eq, if◌then◌else◌,
}
use synthetics_operator.Shared.Dict.{Dict, lookup, insert, erase}
use synthetics_operator.Shared.Strings.{trim, split, atoi, trim_space, take}
use synthetics_operator.Results.{
  Kind, kind_heartbeat, Time, NamespacedName, name_eq, HeartbeatSpecPayload, HeartbeatPing,
  SpecUpdate,
}

abbrev max_output_bytes : ℕ
max_output_bytes = 4096

abbrev fail_suffix : Bytes
fail_suffix = codes "fail"

abbrev min_acceptable_token_length : ℕ
min_acceptable_token_length = 16

-- The unreserved characters of a URL.
abbrev is_unreserved : ℕ → Bool
is_unreserved r =
    leb b'a' r && leb r b'z'
    || leb b'A' r && leb r b'Z'
    || leb b'0' r && leb r b'9'
    || r == b'-'
    || r == b'_'
    || r == b'.'
    || r == b'~'

unfoldable pub all_unreserved : Bytes → Bool
all_unreserved [] = true
all_unreserved (r ∷ s) = is_unreserved r && all_unreserved s

-- AcceptableToken answers nil. A byte of a longer UTF-8 sequence is at least 128, so it is refused
-- as its rune is.
unfoldable pub acceptable_token : Bytes → Bool
acceptable_token s = leb min_acceptable_token_length (length s) && all_unreserved s

-- ValidToken: `^hb_[a-z2-7]{32}$`.
abbrev is_base32 : ℕ → Bool
is_base32 c = leb b'a' c && leb c b'z' || leb b'2' c && leb c b'7'

unfoldable pub base32_run : ℕ → Bytes → Bool
base32_run zero [] = true
base32_run zero (c ∷ s) = false
base32_run (suc n) [] = false
base32_run (suc n) (c ∷ s) = is_base32 c && base32_run n s

unfoldable pub valid_token : Bytes → Bool
valid_token (a ∷ b ∷ c ∷ s) = a == b'h' && b == b'b' && c == b'_' && base32_run 32 s
valid_token _ = false

pub record Outcome : Type 0 where
  pub failed : Bool
  pub exit_code : ℤ

abbrev pub run_ok : Outcome
run_ok = record { failed = false; exit_code = pos 0 }

-- The second segment of a ping URL.
unfoldable pub parse_suffix : Bytes → Option Outcome
parse_suffix suffix =
    if suffix == fail_suffix
    then some (record { failed = true; exit_code = pos 0 })
    else elim (atoi suffix) [
      | none ↦ none
      | some code ↦
          if ltb_ℤ code (pos 0)
          then none
          else some (record { failed = ltb_ℤ (pos 0) code; exit_code = code })
    ]

abbrev pub with_token : Bytes → Option Outcome → Option (Bytes × Outcome)
with_token token none = none
with_token token (some outcome) = some (token, outcome)

unfoldable pub parse_segments : List Bytes → Option (Bytes × Outcome)
parse_segments [] = none
parse_segments (token ∷ rest) =
    if token == []
    then none
    else if acceptable_token token
    then elim rest [
      | [] ↦ some (token, run_ok)
      | suffix ∷ more ↦ elim more [ [] ↦ with_token token (parse_suffix suffix) | _ ∷ _ ↦ none ]
    ]
    else none

unfoldable pub parse_path : Bytes → Option (Bytes × Outcome)
parse_path path = parse_segments (split b'/' (trim b'/' path))

pub record Receiver : Type 0 where
  pub identities : Dict Bytes NamespacedName
  pub tokens : Dict NamespacedName Bytes
  pub warm : Bool

-- The maps of Start.
abbrev pub cold : Receiver
cold = record { identities = []; tokens = []; warm = false }

unfoldable pub mark_warm : Receiver → Receiver
mark_warm r = record r { warm = true }

-- The token of a live spec: none on a tombstone, without a payload, or where it is empty.
abbrev payload_token : Option HeartbeatSpecPayload → Option Bytes
payload_token none = none
payload_token (some payload) = if payload.token == [] then none else some payload.token

abbrev pub live_token : SpecUpdate → Option Bytes
live_token msg = if msg.deleted then none else payload_token msg.heartbeat

abbrev pub drop_previous : NamespacedName → Option Bytes → Receiver → Receiver
drop_previous name none r = r
drop_previous name (some previous) r = record r {
  identities = erase previous r.identities;
  tokens = erase name r.tokens;
}

abbrev pub install : NamespacedName → Option Bytes → Receiver → Receiver
install name none r = r
install name (some token) r = record r {
  identities = insert token name r.identities;
  tokens = insert name token r.tokens;
}

unfoldable pub on_spec : SpecUpdate → Receiver → Receiver
on_spec msg r =
    if not (msg.kind == kind_heartbeat)
    then r
    else let name : NamespacedName = record { namespace = msg.namespace; name = msg.name } in
      let warm : Receiver = record r { warm = true } in
      install name (live_token msg) (drop_previous name (lookup name r.tokens) warm)

unfoldable pub lookup_token : Receiver → Bytes → Option NamespacedName
lookup_token r token = lookup token r.identities

-- What the handler reads of a request. The body is what io.ReadAll gave before an end or an error.
pub record Request : Type 0 where
  pub method : String
  pub path : Bytes
  pub body : Option Bytes

pub record Response : Type 0 where
  pub status : ℕ
  pub headers : Dict String String
  pub body : String

unfoldable pub read_output : Request → Bytes
read_output req =
    if req.method == "POST"
    then elim req.body [ none ↦ [] | some body ↦ trim_space (take max_output_bytes body) ]
    else []

abbrev pub not_found : Response
not_found = record { status = 404; headers = []; body = "404 page not found" }

abbrev pub method_not_allowed : Response
method_not_allowed = record {
  status = 405;
  headers = ("Allow", "GET, HEAD, POST") ∷ [];
  body = "method not allowed";
}

abbrev pub still_loading : Response
still_loading = record {
  status = 503;
  headers = ("Retry-After", "5") ∷ [];
  body = "heartbeat receiver is still loading; retry shortly";
}

abbrev pub publish_failed : Response
publish_failed = record { status = 500; headers = []; body = "failed to record heartbeat" }

abbrev pub accepted : Response
accepted = record {
  status = 200;
  headers = ("Content-Type", "text/plain; charset=utf-8") ∷ [];
  body = "ok\n";
}

abbrev pub is_ping_method : String → Bool
is_ping_method method = method == "GET" || method == "HEAD" || method == "POST"

unfoldable pub ping_of : Request → Time → NamespacedName → Outcome → HeartbeatPing
ping_of req now name outcome = record {
  name = name.name;
  namespace = name.namespace;
  received_at = now;
  failed = outcome.failed;
  exit_code = outcome.exit_code;
  output = read_output req;
}

module _ (takes : HeartbeatPing → Bool) (r : Receiver) (now : Time) (req : Request) where
  -- The message that was handed to the bus, if any, and the response.
  abbrev pub publish : HeartbeatPing → Option HeartbeatPing × Response
  publish ping = (some ping, if takes ping then accepted else publish_failed)

  abbrev pub serve_known : Option NamespacedName → Outcome → Option HeartbeatPing × Response
  serve_known none outcome = (none, if r.warm then not_found else still_loading)
  serve_known (some name) outcome = publish (ping_of req now name outcome)

  abbrev pub serve_parsed : Option (Bytes × Outcome) → Option HeartbeatPing × Response
  serve_parsed none = (none, not_found)
  serve_parsed (some (token, outcome)) = serve_known (lookup_token r token) outcome

  unfoldable pub serve_ping : Option HeartbeatPing × Response
  serve_ping =
      if is_ping_method req.method
      then serve_parsed (parse_path req.path)
      else (none, method_not_allowed)

-- /readyz
unfoldable pub ready : Receiver → ℕ
ready r = if r.warm then 200 else 503
