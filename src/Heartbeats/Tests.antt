-- ===== src/Heartbeats/Tests.antt =====
-- Reconciliations of the example heartbeat, and witnesses of the theorems.
use synthetics_operator.Shared.{
  some_inj, String, refl, true, false, none, some, [], Bytes, codes, bytes_beq, pos, ◌≡◌, ◌∷◌, ◌++◌,
  string_eq, bytes_eq, nat_eq,
}
use mathlib.Core.Path.{subst}
use synthetics_operator.Shared.Dict.{Dict, lookup, insert}
use synthetics_operator.Shared.Strings.{
  append_text, trim_space, drop_space, space_width, space_width_end, trim_left, split, trim,
}
use synthetics_operator.Results.{name_eq, Time}
use synthetics_operator.Api.{Heartbeat, TokenSecretRef}
use synthetics_operator.Receiver.{
  parse_path, parse_segments, run_ok, acceptable_token, all_unreserved,
}
use synthetics_operator.Reconcilers.{
  Get, gets, missing, probe_status_changed, same_conditions, same_condition,
}
use synthetics_operator.Webhooks.Examples.{heartbeat}
use synthetics_operator.Heartbeats.{
  Answers, Write, resolved, unresolved, secret_not_found, resolve_token, adopt_token, token_in,
  create_or_update, with_token_data, generated_secret_name, ping_url, trim_slash,
}
use synthetics_operator.Heartbeats.Beats.{
  reconcile_heartbeat, reconcile_resolved, sync_secret_url, heartbeat_status_changed,
}
use synthetics_operator.Heartbeats.Tokens.{IsTrimmed, adopt_token-served, resolve_token-kept}
use synthetics_operator.Heartbeats.Writes.{beat_name, reconcile_heartbeat-writes}

resolving : Unit {0}
unfolding resolve_token adopt_token token_in create_or_update append_text generated_secret_name
    ping_url trim_slash trim_space drop_space space_width space_width_end lookup insert trim_left
    acceptable_token all_unreserved bytes_beq parse_path parse_segments split trim
    reconcile_heartbeat reconcile_resolved sync_secret_url heartbeat_status_changed
    probe_status_changed same_conditions same_condition
resolving = tt

abbrev noon : Time
noon = record { unix = pos 43200; nsec = 0 }

-- A server that answers every Get alike.
abbrev answers : Get (Dict String Bytes) → Answers
answers found = record {
  calls = record {
    takes = λ msg. true;
    patches = true;
    set_status_condition = λ conditions c. c ∷ conditions;
    now = noon;
  };
  get = λ name. found;
  get_again = λ name. missing;
  current = λ name. [];
  creates = true;
  patches_secret = true;
  random_text = some (codes "abcdefghijklmnopqrstuvwxyz234567");
  path_escape = λ path. path;
  base_url = codes "https://hb.example.com/";
  message_of = λ e. "no token";
  ready_message = λ name. "token available";
}

abbrev minted : Bytes
minted = codes "hb_abcdefghijklmnopqrstuvwxyz234567"

abbrev url : Bytes
url = codes "https://hb.example.com/hb_abcdefghijklmnopqrstuvwxyz234567"

abbrev made : Write
made = record {
  name = record { namespace = "ns"; name = "backup-heartbeat" };
  values = with_token_data (answers missing) minted [];
}

generated :
    resolve_token (answers missing) heartbeat ≡ (resolved minted "backup-heartbeat", made ∷ [])
unfolding resolving
generated = refl

pinged : ping_url (answers missing) minted ≡ url
unfolding resolving
pinged = refl

-- The token of a Secret of the operator is not asked whether it is acceptable: one that somebody
-- wrote there is taken, and its path is no path of the receiver.
abbrev edited : Answers
edited = answers (gets (("token", codes "short") ∷ []))

unasked :
    (resolve_token edited heartbeat ≡ (resolved (codes "short") "backup-heartbeat", []))
    × (parse_path (codes "/short") ≡ none)
unfolding resolving
unasked = (refl, refl)

trimmed : IsTrimmed (answers missing)
unfolding resolving
trimmed text e =
    subst (λ (t : Bytes). trim_space (codes "hb_" ++ t) ≡ codes "hb_" ++ t) (some_inj e) refl

resolve_token-kept_example :
    resolve_token (answers (gets made.values)) heartbeat ≡ (resolved minted "backup-heartbeat", [])
resolve_token-kept_example =
    resolve_token-kept (answers missing) (answers (gets made.values)) heartbeat minted
      "backup-heartbeat" made trimmed refl generated refl

abbrev ref : TokenSecretRef
ref = record { name = "ours"; key = "" }

abbrev with_ref : Heartbeat
with_ref = record heartbeat { token_secret_ref = some ref }

abbrev brought : Answers
brought = answers (gets (("token", codes " a-token-of-the-user\n") ∷ []))

adoption : adopt_token brought "ns" ref ≡ resolved (codes "a-token-of-the-user") "ours"
unfolding resolving
adoption = refl

adopt_token-served_example :
    (parse_path (b'/' ∷ codes "a-token-of-the-user") ≡ some (codes "a-token-of-the-user", run_ok))
    × ("ours" ≡ ref.name)
adopt_token-served_example =
    adopt_token-served brought "ns" ref (codes "a-token-of-the-user") "ours" adoption

reconcile_heartbeat-writes_example :
    (reconcile_heartbeat brought (beat_name brought with_ref) (gets with_ref)).writes ≡ []
reconcile_heartbeat-writes_example =
    reconcile_heartbeat-writes brought (beat_name brought with_ref) with_ref ref refl

lost : resolve_token (answers missing) with_ref ≡ (unresolved (secret_not_found "ours"), [])
unfolding resolving
lost = refl

ended :
    (reconcile_heartbeat (answers missing) (beat_name brought with_ref) (gets with_ref)).failed
    ≡ false
unfolding resolving
ended = refl
