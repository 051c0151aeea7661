-- ===== src/Specs/Reseed.antt =====
-- What the consumers hold after the broadcast of an object: the metrics store after a restart, and
-- the receiver's token index.
use synthetics_operator.Shared.{
  refl, ap, true, Option, none, some, List, [], Bytes, beq_ne, pos, ◌≡◌, ◌∙◌, ◌≢◌, ◌∷◌, ◌==◌,
  string_eq, bytes_eq, nat_eq,
}
use synthetics_operator.Shared.Dict.{lookup, lookup-insert_self}
use synthetics_operator.Float.{Float64}
use synthetics_operator.Lifecycle.{State, apply_spec}
use synthetics_operator.Results.{
  HeartbeatSpecPayload, Time, NamespacedName, name_eq, DependencyRef, kind_heartbeat,
}
use synthetics_operator.Metrics.{CrKey, key_eq, crkey, Store}
use synthetics_operator.Consumer
use synthetics_operator.Consumer.{heartbeat_result_failed, to_api_depends}
use synthetics_operator.Consumer.Resync.{on_spec-live, apply_payload}
use synthetics_operator.Receiver
use synthetics_operator.Receiver.{Receiver, install, lookup_token}
use synthetics_operator.Api.{Heartbeat}
use synthetics_operator.Specs.{milliseconds, heartbeat_spec_update, to_depends_refs, unix_or_zero}

-- The dependencies survive the wire.
to_api_depends-to_depends_refs :
    (deps : List DependencyRef) → to_api_depends (to_depends_refs deps) ≡ deps
unfolding to_api_depends to_depends_refs
to_api_depends-to_depends_refs [] = refl
to_api_depends-to_depends_refs (d ∷ ds) =
    ap (λ (rest : List DependencyRef). d ∷ rest) (to_api_depends-to_depends_refs ds)

abbrev pub name_of : Heartbeat → NamespacedName
name_of h = record { namespace = h.object.namespace; name = h.object.name }

abbrev pub key_of : Heartbeat → CrKey
key_of h = crkey kind_heartbeat (name_of h)

-- The token of a broadcast heartbeat resolves to it.
on_spec-resolves :
    (h : Heartbeat) (token : Bytes) (r : Receiver)
    → token ≢ []
    → lookup_token (Receiver.on_spec (heartbeat_spec_update h token) r) token ≡ some (name_of h)
unfolding heartbeat_spec_update lookup_token Receiver.on_spec
on_spec-resolves h token r some_token =
    rw (beq_ne token [] some_token) (lookup-insert_self token (name_of h) _)

module _ (F : Float64) where
  open F use {Float, of_int, lt}

  -- The state shows the ping and the outcome that the object's status has.
  pub record IsSeeded (h : Heartbeat) (t : Time) (st : State F) : Type 0 where
    pub at : st.last_ping_unix ≡ of_int t.unix
    pub outcome : st.reported_failure ≡ (h.status.last_result == heartbeat_result_failed)
    pub suspended : st.suspended ≡ h.object.suspend

  abbrev payload_of : Heartbeat → Bytes → HeartbeatSpecPayload
  payload_of h token = record {
    token = token;
    period_ms = milliseconds h.period;
    grace_ms = milliseconds h.grace;
    last_ping_unix = unix_or_zero h.status.last_ping_time;
    last_result = h.status.last_result;
  }

  payload-IsSeeded :
      (h : Heartbeat) (token : Bytes) (t : Time) (live : Option (State F))
      → h.status.last_ping_time ≡ some t
      → lt (of_int (pos 0)) (of_int t.unix) ≡ true
      → live ≡ none
      → IsSeeded h t (apply_payload F h.object.suspend (payload_of h token) live)
  unfolding apply_spec
  payload-IsSeeded h token t live seen after fresh =
      rw (fresh, seen, after) (record { at = refl; outcome = refl; suspended = refl })

  -- A store without the heartbeat, as after a restart, takes the last ping and its outcome from the
  -- status that the broadcast carries, where that ping is after the epoch.
  on_spec-IsSeeded :
      (h : Heartbeat) (token : Bytes) (t : Time) (s : Store F)
      → h.status.last_ping_time ≡ some t
      → lt (of_int (pos 0)) (of_int t.unix) ≡ true
      → lookup (key_of h) s.heartbeats ≡ none
      → (st : State F) × (lookup
            (key_of h)
            (Consumer.on_spec F (heartbeat_spec_update h token) s).heartbeats
          ≡ some st)
        × IsSeeded h t st
  unfolding heartbeat_spec_update
  on_spec-IsSeeded h token t s seen after fresh =
      let update = heartbeat_spec_update h token in
      let live = lookup (key_of h) s.heartbeats in
      let st = apply_payload F h.object.suspend (payload_of h token) live in
      (
        st,
        ap (λ (x : Store F). lookup (key_of h) x.heartbeats) (on_spec-live F update s refl)
            ∙ lookup-insert_self (key_of h) st s.heartbeats,
        payload-IsSeeded h token t live seen after fresh,
      )
