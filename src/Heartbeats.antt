-- ===== src/Heartbeats.antt =====
-- controllers/heartbeat_controller.go, and NewToken of internal/heartbeat/token.go. The answers of the
-- API server, of the bus, of CreateOrUpdate, of url.PathEscape and of the random source are the
-- parameter `Answers`; the text of a condition is part of it.
pub mod Beats
pub mod Tokens
pub mod Writes
mod Tests
use synthetics_operator.Shared.{
  String, Bool, Option, none, some, List, [], Bytes, codes, ◌∷◌, ◌++◌, ◌==◌, string_eq, bytes_eq,
  nat_eq, if◌then◌else◌,
}
use synthetics_operator.Shared.Dict.{Dict, lookup, insert}
use synthetics_operator.Shared.Strings.{trim_space, append_text}
use synthetics_operator.Results.{kind_heartbeat, Time, NamespacedName, SpecUpdate}
use synthetics_operator.Api.{Condition, Status, TokenSecretRef, HeartbeatStatus, Heartbeat}
use synthetics_operator.Specs.{heartbeat_spec_update, tombstone}
use synthetics_operator.Receiver.{acceptable_token}
use synthetics_operator.Reconcilers.{
  Calls, Get, gets, missing, unreadable, set_suspended_condition, probe_status_changed,
}

abbrev pub token_secret_key : String
token_secret_key = "token"

abbrev pub url_secret_key : String
url_secret_key = "url"

-- The causes of a tokenError; each names the Secret.
pub data TokenError : Type 0 where
  secret_not_found secret_unreadable secret_unwritable : String → TokenError
  no_token unusable_token : String → TokenError
  no_entropy : TokenError

abbrev pub reason_of : TokenError → String
reason_of (unusable_token _) = "TokenInvalid"
reason_of _ = "TokenMissing"

-- The data of a Secret that is written.
pub record Write : Type 0 where
  pub name : NamespacedName
  pub values : Dict String Bytes

pub data Resolved : Type 0 where
  resolved : Bytes → String → Resolved
  unresolved : TokenError → Resolved

pub record Answers : Type 0 where
  pub calls : Calls
  -- Get of a Secret, when the token is resolved, and when its URL is compared
  pub get : NamespacedName → Get (Dict String Bytes)
  pub get_again : NamespacedName → Get (Dict String Bytes)
  -- the data that CreateOrUpdate hands to its function, empty of a new Secret, and whether it succeeds
  pub current : NamespacedName → Dict String Bytes
  pub creates : Bool
  -- whether a Patch of a Secret succeeds
  pub patches_secret : Bool
  -- the base32 text, without padding and in lower case, of the random bytes; none is an error
  pub random_text : Option Bytes
  pub path_escape : Bytes → Bytes
  pub base_url : Bytes
  pub message_of : TokenError → String
  pub ready_message : String → String

-- secret.Data[key] of a missing key is empty.
abbrev pub value_of : Option Bytes → Bytes
value_of none = []
value_of (some value) = value

unfoldable pub token_in : String → Dict String Bytes → Bytes
token_in key values = trim_space (value_of (lookup key values))

abbrev pub token_prefix : Bytes
token_prefix = codes "hb_"

abbrev pub with_prefix : Option Bytes → Option Bytes
with_prefix none = none
with_prefix (some text) = some (token_prefix ++ text)

abbrev pub new_token : Answers → Option Bytes
new_token answers = with_prefix answers.random_text

unfoldable pub generated_secret_name : String → String
generated_secret_name name = append_text name "-heartbeat"

-- strings.TrimSuffix(s, "/")
unfoldable pub trim_slash : Bytes → Bytes
trim_slash [] = []
trim_slash (c ∷ []) = if c == b'/' then [] else c ∷ []
trim_slash (c ∷ d ∷ s) = c ∷ trim_slash (d ∷ s)

abbrev join_url : Bytes → Bytes → Bytes
join_url base path = if base == [] then [] else base ++ b'/' ∷ path

unfoldable pub ping_url : Answers → Bytes → Bytes
ping_url answers token =
    join_url (trim_slash (trim_space answers.base_url)) (answers.path_escape token)

abbrev pub key_or_token : String → String
key_or_token key = if key == "" then token_secret_key else key

abbrev pub adopted : String → Bytes → Resolved
adopted name token =
    if token == []
    then unresolved (no_token name)
    else if acceptable_token token
    then resolved token name
    else unresolved (unusable_token name)

abbrev pub adopt_found : TokenSecretRef → Get (Dict String Bytes) → Resolved
adopt_found ref missing = unresolved (secret_not_found ref.name)
adopt_found ref unreadable = unresolved (secret_unreadable ref.name)
adopt_found ref (gets values) = adopted ref.name (token_in (key_or_token ref.key) values)

unfoldable pub adopt_token : Answers → String → TokenSecretRef → Resolved
adopt_token answers namespace ref =
    adopt_found ref (answers.get (record { namespace = namespace; name = ref.name }))

-- The function that CreateOrUpdate is given: a token that is there wins over the new one.
abbrev pub kept_token : Bytes → Dict String Bytes → Bytes
kept_token token values =
    let existing = token_in token_secret_key values in if existing == [] then token else existing

abbrev pub with_token_data : Answers → Bytes → Dict String Bytes → Dict String Bytes
with_token_data answers token values =
    insert url_secret_key (ping_url answers (kept_token token values)) (
      if token_in token_secret_key values == []
      then insert token_secret_key token values
      else values)

unfoldable pub create_or_update : Answers → NamespacedName → Bytes → Resolved × List Write
create_or_update answers key token =
    let values = answers.current key in
    if answers.creates
    then (
      resolved (kept_token token values) key.name,
      record { name = key; values = with_token_data answers token values } ∷ [],
    )
    else (unresolved (secret_unwritable key.name), [])

abbrev pub mint : Answers → NamespacedName → Option Bytes → Resolved × List Write
mint answers key none = (unresolved no_entropy, [])
mint answers key (some token) = create_or_update answers key token

abbrev pub generate_found :
    Answers → NamespacedName → Get (Dict String Bytes) → Resolved × List Write
generate_found answers key missing = mint answers key (new_token answers)
generate_found answers key unreadable = (unresolved (secret_unreadable key.name), [])
generate_found answers key (gets values) =
    let token = token_in token_secret_key values in
    if token == [] then mint answers key (new_token answers) else (resolved token key.name, [])

abbrev pub secret_of : Heartbeat → NamespacedName
secret_of h = record { namespace = h.object.namespace; name = generated_secret_name h.object.name }

abbrev pub resolve_ref : Answers → Heartbeat → Option TokenSecretRef → Resolved × List Write
resolve_ref answers h (some ref) = (adopt_token answers h.object.namespace ref, [])
resolve_ref answers h none = generate_found answers (secret_of h) (answers.get (secret_of h))

unfoldable pub resolve_token : Answers → Heartbeat → Resolved × List Write
resolve_token answers h = resolve_ref answers h h.token_secret_ref

-- Token, as the resync reads it.
abbrev token_of : Resolved → Option Bytes
token_of (resolved token _) = some token
token_of (unresolved _) = none
