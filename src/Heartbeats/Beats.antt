-- ===== src/Heartbeats/Beats.antt =====
-- controllers/heartbeat_controller.go: Reconcile, syncSecretURL and the status.
use synthetics_operator.Shared.{
  String, Bool, true, false, not, Option, none, some, List, [], Bytes, ℤ, ◌||◌, ◌∷◌, ◌++◌, ◌==◌,
  string_eq, bytes_eq, nat_eq, if◌then◌else◌,
}
use synthetics_operator.Shared.Dict.{Dict, lookup, insert}
use synthetics_operator.Results.{kind_heartbeat, Time, NamespacedName, SpecUpdate}
use synthetics_operator.Api.{Condition, Status, TokenSecretRef, HeartbeatStatus, Heartbeat}
use synthetics_operator.Specs.{heartbeat_spec_update, tombstone}
use synthetics_operator.Reconcilers.{
  Calls, Get, gets, missing, unreadable, set_suspended_condition, probe_status_changed,
}
use synthetics_operator.Heartbeats.{
  Answers, TokenError, Write, Resolved, resolved, unresolved, reason_of, value_of, url_secret_key,
  ping_url, resolve_token,
}

-- syncSecretURL: the write, and whether it succeeds.
abbrev sync_found : Answers → NamespacedName → Bytes → Get (Dict String Bytes) → List Write × Bool
sync_found answers key url missing = ([], true)
sync_found answers key url unreadable = ([], false)
sync_found answers key url (gets values) =
    if value_of (lookup url_secret_key values) == url
    then ([], true)
    else if answers.patches_secret
    then (record { name = key; values = insert url_secret_key url values } ∷ [], true)
    else ([], false)

abbrev pub sync_owned : Answers → NamespacedName → Bytes → Option TokenSecretRef → List Write × Bool
sync_owned answers key url (some ref) = ([], true)
sync_owned answers key url none =
    if url == [] then ([], true) else sync_found answers key url (answers.get_again key)

unfoldable pub sync_secret_url : Answers → Heartbeat → String → Bytes → List Write × Bool
sync_secret_url answers h secret_name url =
    sync_owned answers (record { namespace = h.object.namespace; name = secret_name }) url
      h.token_secret_ref

abbrev token_condition : ℤ → Time → Bool → String → String → Condition
token_condition generation now ready reason message = record {
  type = "TokenReady";
  status = ready;
  observed_generation = generation;
  last_transition_time = now;
  reason = reason;
  message = message;
}

abbrev set_token_condition : Calls → List Condition → ℤ → Bool → String → String → List Condition
set_token_condition calls conditions generation ready reason message =
    calls.set_status_condition conditions
      (token_condition generation calls.now ready reason message)

abbrev common : HeartbeatStatus → Status
common status = record {
  observed_generation = status.observed_generation;
  conditions = status.conditions;
}

unfoldable pub heartbeat_status_changed : HeartbeatStatus → HeartbeatStatus → Bool
heartbeat_status_changed before after =
    not (before.url == after.url)
    || not (before.token_secret_name == after.token_secret_name)
    || probe_status_changed (common before) (common after)

-- The end of a reconciliation: the messages that the bus took, the Secrets that were written, the
-- status that was patched, whether an error is returned, and whether the request comes back after
-- 30 seconds.
pub record BeatRun : Type 0 where
  pub bus : List SpecUpdate
  pub writes : List Write
  pub patched : Option HeartbeatStatus
  pub failed : Bool
  pub requeued : Bool

abbrev pub beat_failed : List SpecUpdate → List Write → BeatRun
beat_failed bus writes = record {
  bus = bus;
  writes = writes;
  patched = none;
  failed = true;
  requeued = false;
}

abbrev beat_done : List SpecUpdate → List Write → Option HeartbeatStatus → Bool → BeatRun
beat_done bus writes patched requeued = record {
  bus = bus;
  writes = writes;
  patched = patched;
  failed = false;
  requeued = requeued;
}

-- patchStatus, at the end.
abbrev pub patch_beat :
    Answers → HeartbeatStatus → HeartbeatStatus → List SpecUpdate → List Write → Bool → BeatRun
patch_beat answers before after bus writes requeued =
    if heartbeat_status_changed before after
    then (if answers.calls.patches
        then beat_done bus writes (some after) requeued
        else beat_failed bus writes)
    else beat_done bus writes none requeued

abbrev pub without_token : Answers → Heartbeat → TokenError → HeartbeatStatus
without_token answers h e = record h.status {
  conditions =
      set_token_condition answers.calls h.status.conditions h.object.generation false (reason_of e)
        (answers.message_of e);
  observed_generation = h.object.generation;
  url = [];
  token_secret_name = "";
}

abbrev pub with_ready_token : Answers → Heartbeat → String → Bytes → HeartbeatStatus
with_ready_token answers h secret_name url = record h.status {
  observed_generation = h.object.generation;
  url = url;
  token_secret_name = secret_name;
  conditions =
      set_token_condition answers.calls
        (set_suspended_condition answers.calls h.status.conditions h.object.generation
          h.object.suspend)
        h.object.generation true "TokenProvisioned" (answers.ready_message secret_name);
}

-- return ctrl.Result{}, r.Publisher.PublishSpec(ctx, tombstone(…))
abbrev bury : Answers → SpecUpdate → BeatRun
bury answers msg =
    if answers.calls.takes msg then beat_done (msg ∷ []) [] none false else beat_failed [] []

abbrev pub beat_tombstone : Heartbeat → SpecUpdate
beat_tombstone h = tombstone kind_heartbeat h.object.namespace h.object.name

abbrev pub synced : Answers → Heartbeat → Bytes → String → List Write → List Write × Bool → BeatRun
synced answers h token secret_name writes (_, false) = beat_failed [] writes
synced answers h token secret_name writes (more, true) =
    if answers.calls.takes (heartbeat_spec_update h token)
    then patch_beat answers h.status
        (with_ready_token answers h secret_name (ping_url answers token))
        (heartbeat_spec_update h token ∷ []) (writes ++ more) false
    else beat_failed [] (writes ++ more)

-- From the result of resolveToken on.
unfoldable pub reconcile_resolved : Answers → Heartbeat → Resolved × List Write → BeatRun
reconcile_resolved answers h (unresolved e, writes) =
    if answers.calls.takes (beat_tombstone h)
    then patch_beat answers h.status (without_token answers h e) (beat_tombstone h ∷ []) writes true
    else beat_failed [] writes
reconcile_resolved answers h (resolved token secret_name, writes) =
    synced answers h token secret_name writes
      (sync_secret_url answers h secret_name (ping_url answers token))

unfoldable pub reconcile_heartbeat : Answers → NamespacedName → Get Heartbeat → BeatRun
reconcile_heartbeat answers name missing =
    bury answers (tombstone kind_heartbeat name.namespace name.name)
reconcile_heartbeat answers name unreadable = beat_failed [] []
reconcile_heartbeat answers name (gets h) =
    if h.object.deleting
    then bury answers (beat_tombstone h)
    else reconcile_resolved answers h (resolve_token answers h)
