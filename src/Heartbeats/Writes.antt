-- ===== src/Heartbeats/Writes.antt =====
-- Which Secrets a reconciliation writes, and what the receiver holds after it.
use synthetics_operator.Shared.{
  if_intro, none_ne, String, refl, sym, ap, Bool, true, false, none, some, List, [], arith, Bytes,
  beq_refl, ◌≡◌, ◌∙◌, ◌≢◌, ◌∷◌, string_eq, bytes_eq, nat_eq,
}
use mathlib.Core.Path.{subst}
use synthetics_operator.Shared.Dict.{lookup}
use synthetics_operator.Results.{NamespacedName, name_eq, SpecUpdate}
use synthetics_operator.Api.{HeartbeatStatus, Heartbeat, TokenSecretRef}
use synthetics_operator.Specs.{heartbeat_spec_update, tombstone}
use synthetics_operator.Receiver
use synthetics_operator.Receiver.{Receiver, cold, lookup_token}
use synthetics_operator.Receiver.Index.{run, run-IsSound, on_spec-IsSound, on_spec-tokens}
use synthetics_operator.Reconcilers.{gets}
use synthetics_operator.Heartbeats.{
  Answers, Write, Resolved, resolved, unresolved, TokenError, resolve_token, resolve_ref, ping_url,
  adopt_token,
}
use synthetics_operator.Heartbeats.Beats.{
  BeatRun, beat_failed, patch_beat, beat_tombstone, synced, sync_secret_url, sync_owned,
  reconcile_resolved, reconcile_heartbeat, heartbeat_status_changed, without_token,
  with_ready_token,
}

module _ (answers : Answers) where
  abbrev Leaves : List Write → BeatRun → Type 0
  Leaves writes run = run.writes ≡ writes

  patch_beat-writes :
      (before after : HeartbeatStatus) (bus : List SpecUpdate) (writes : List Write)
      (requeued : Bool)
      → Leaves writes (patch_beat answers before after bus writes requeued)
  patch_beat-writes before after bus writes requeued =
      if_intro (Leaves writes) (heartbeat_status_changed before after)
        (if_intro (Leaves writes) answers.calls.patches refl refl) refl

  -- What a token of a user's Secret leads to.
  synced-writes :
      (h : Heartbeat) (token : Bytes) (name : String)
      → Leaves [] (synced answers h token name [] ([], true))
  synced-writes h token name =
      if_intro (Leaves []) (answers.calls.takes (heartbeat_spec_update h token))
        (patch_beat-writes h.status (with_ready_token answers h name (ping_url answers token)) _ []
          false)
        refl

  reconcile_resolved-writes :
      (h : Heartbeat) (ref : TokenSecretRef) (r : Resolved)
      → h.token_secret_ref ≡ some ref
      → Leaves [] (reconcile_resolved answers h (r, []))
  unfolding reconcile_resolved sync_secret_url
  reconcile_resolved-writes h ref (unresolved e) own =
      if_intro (Leaves []) (answers.calls.takes (beat_tombstone h))
        (patch_beat-writes h.status (without_token answers h e) _ [] true) refl
  reconcile_resolved-writes h ref (resolved token name) own =
      rw
        (ap
          (sync_owned answers (record { namespace = h.object.namespace; name = name })
            (ping_url answers token))
          own)
        (synced-writes h token name)

  -- A reconciliation of a heartbeat that names a Secret writes no Secret, on any branch: what the
  -- user brought is left to the user.
  pub reconcile_heartbeat-writes :
      (name : NamespacedName) (h : Heartbeat) (ref : TokenSecretRef)
      → h.token_secret_ref ≡ some ref
      → (reconcile_heartbeat answers name (gets h)).writes ≡ []
  unfolding reconcile_heartbeat resolve_token
  reconcile_heartbeat-writes name h ref own =
      if_intro (Leaves []) h.object.deleting
        (if_intro (Leaves []) (answers.calls.takes (beat_tombstone h)) refl refl)
        (subst (λ found. Leaves [] (reconcile_resolved answers h (resolve_ref answers h found)))
          (sym own)
          (reconcile_resolved-writes h ref (adopt_token answers h.object.namespace ref) own))

  -- The messages that the bus took, of a run without an error.
  abbrev Sends : List SpecUpdate → BeatRun → Type 0
  Sends msgs run = run.failed ≡ false → run.bus ≡ msgs

  refused : (msgs : List SpecUpdate) (writes : List Write) → Sends msgs (beat_failed [] writes)
  refused msgs writes ok = ground (arith, ok)

  patch_beat-bus :
      (before after : HeartbeatStatus) (bus : List SpecUpdate) (writes : List Write)
      (requeued : Bool)
      → Sends bus (patch_beat answers before after bus writes requeued)
  patch_beat-bus before after bus writes requeued =
      if_intro (Sends bus) (heartbeat_status_changed before after)
        (if_intro (Sends bus) answers.calls.patches (λ _. refl) (λ _. refl)) (λ _. refl)

  reconcile_resolved-buries :
      (h : Heartbeat) (e : TokenError) (writes : List Write)
      → Sends (beat_tombstone h ∷ []) (reconcile_resolved answers h (unresolved e, writes))
  unfolding reconcile_resolved
  reconcile_resolved-buries h e writes =
      if_intro (Sends (beat_tombstone h ∷ [])) (answers.calls.takes (beat_tombstone h))
        (patch_beat-bus h.status (without_token answers h e) _ writes true)
        (refused (beat_tombstone h ∷ []) writes)

  abbrev pub beat_name : Heartbeat → NamespacedName
  beat_name h = record { namespace = h.object.namespace; name = h.object.name }

  unserved :
      (h : Heartbeat) (msgs : List SpecUpdate) (token : Bytes)
      → lookup_token (Receiver.on_spec (beat_tombstone h) (run msgs cold)) token
        ≢ some (beat_name h)
  unfolding lookup_token tombstone lookup
  unserved h msgs token found =
      let r = run msgs cold in
      let sound =
        on_spec-IsSound (beat_tombstone h) r
          (run-IsSound msgs cold (λ t n e. absurd (none_ne e))) in
      let held = sound token (beat_name h) found in
      let gone : lookup (beat_name h) (Receiver.on_spec (beat_tombstone h) r).tokens ≡ none =
        on_spec-tokens (beat_name h) (beat_tombstone h) r ∙ rw (beq_refl (beat_name h)) refl in
      none_ne (sym gone ∙ held)

  reconcile_heartbeat-buries :
      (name : NamespacedName) (h : Heartbeat) (e : TokenError) (writes : List Write)
      → resolve_token answers h ≡ (unresolved e, writes)
      → Sends (beat_tombstone h ∷ []) (reconcile_heartbeat answers name (gets h))
  unfolding reconcile_heartbeat
  reconcile_heartbeat-buries name h e writes lost =
      if_intro (Sends (beat_tombstone h ∷ [])) h.object.deleting
        (if_intro (Sends (beat_tombstone h ∷ [])) (answers.calls.takes (beat_tombstone h))
          (λ _. refl) (refused (beat_tombstone h ∷ []) []))
        (rw lost (reconcile_resolved-buries h e writes))

  -- A heartbeat whose token can no longer be resolved is not served: after
  -- a reconciliation without an error, and the message that it sent, no token of a receiver that
  -- started cold and handled any messages before resolves to it.
  reconcile_heartbeat-unserved :
      (name : NamespacedName) (h : Heartbeat) (e : TokenError) (writes : List Write)
      (msgs : List SpecUpdate) (token : Bytes)
      → resolve_token answers h ≡ (unresolved e, writes)
      → (reconcile_heartbeat answers name (gets h)).failed ≡ false
      → lookup_token (run (reconcile_heartbeat answers name (gets h)).bus (run msgs cold)) token
        ≢ some (beat_name h)
  unfolding run
  reconcile_heartbeat-unserved name h e writes msgs token lost ok found = unserved h msgs token (
      subst
        (λ (bus : List SpecUpdate).
          lookup_token (run bus (run msgs cold)) token ≡ some (beat_name h))
        (reconcile_heartbeat-buries name h e writes lost ok) found)
