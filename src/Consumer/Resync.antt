-- ===== src/Consumer/Resync.antt =====
-- Re-broadcasting a spec is safe: a duplicate changes nothing, and no resync moves a ping back.
use mathlib.Core.Path.{subst}
use synthetics_operator.Metrics.{key_beq_iff}
use synthetics_operator.Shared.{
  String, refl, sym, ap, inl, inr, Bool, true, false, Option, none, some, List, [], arith,
  Bool-cases, Eq, beq_refl, ◌≡◌, ◌∙◌, ◌∷◌, ◌==◌, string_eq, bytes_eq, nat_eq, if◌then◌else◌,
}
use synthetics_operator.Shared.Dict.{
  erase-erase, insert-insert, Dict, lookup, insert, erase, lookup-insert,
}
use synthetics_operator.Float.{Float64}
use synthetics_operator.Lifecycle.{State, Seed, apply_spec}
use synthetics_operator.Results.{
  SpecUpdate, DependencyRef, kind_heartbeat, NamespacedName, HeartbeatSpecPayload,
}
use synthetics_operator.Lifecycle.Pings.{SamePing}
use synthetics_operator.Metrics.{
  CrKey, key_eq, crkey, heartbeat_or_zero, exists, Store, set_depends, set_heartbeat_spec,
  set_metric_labels, delete, clear_depends, clear_metric_labels,
}
use synthetics_operator.Consumer.{
  to_api_depends, on_spec, set_payload, heartbeat_result_failed, seconds,
}

-- m[k] = v, or delete(m, k) where v is empty.
abbrev pub set_or_clear {ℓ κ} :
    {K : Type ℓ} {V : Type κ} ⦃e : Eq K⦄ → K → List V → Dict K (List V) → Dict K (List V)
set_or_clear k [] m = erase k m
set_or_clear k (v ∷ vs) m = insert k (v ∷ vs) m

set_or_clear_idem {ℓ κ} :
    {K : Type ℓ} {V : Type κ} ⦃e : Eq K⦄ (k : K) (vs : List V) (m : Dict K (List V))
    → set_or_clear k vs (set_or_clear k vs m) ≡ set_or_clear k vs m
set_or_clear_idem k [] m = erase-erase k m
set_or_clear_idem k (v ∷ vs) m = insert-insert k (v ∷ vs) (v ∷ vs) m

module _ (F : Float64) where
  open F use {Float, of_int}

  apply_spec_again :
      (st : State F) (existing suspend : Bool) (period grace : Float) (seed : Seed F)
      → apply_spec F
          (apply_spec F st existing period grace suspend seed)
          true
          period
          grace
          suspend
          seed
        ≡ apply_spec F st existing period grace suspend seed
  unfolding apply_spec
  apply_spec_again st existing suspend period grace seed = ground arith

  abbrev pub apply_payload : Bool → HeartbeatSpecPayload → Option (State F) → State F
  apply_payload suspend payload live =
      apply_spec F (heartbeat_or_zero F live) (exists live) (seconds F payload.period_ms)
        (seconds F payload.grace_ms) suspend
        (record {
          last_ping_unix = of_int payload.last_ping_unix;
          failed = payload.last_result == heartbeat_result_failed;
        })

  abbrev pub put_heartbeat :
      NamespacedName
      → Bool
      → Option HeartbeatSpecPayload
      → Dict CrKey (State F)
      → Dict CrKey (State F)
  put_heartbeat name suspend none m = m
  put_heartbeat name suspend (some payload) m =
      insert (crkey kind_heartbeat name)
        (apply_payload suspend payload (lookup (crkey kind_heartbeat name) m)) m

  put_heartbeat_idem :
      (name : NamespacedName) (suspend : Bool) (payload : Option HeartbeatSpecPayload)
      (m : Dict CrKey (State F))
      → put_heartbeat name suspend payload (put_heartbeat name suspend payload m)
        ≡ put_heartbeat name suspend payload m
  put_heartbeat_idem name suspend none m = refl
  put_heartbeat_idem name suspend (some payload) m =
      let key = crkey kind_heartbeat name in
      let live = lookup key m in
      let st = apply_payload suspend payload live in
      insert-insert key _ st m
      ∙ ap (λ (x : State F). insert key x m)
          (ap (apply_payload suspend payload) (lookup-self key st m)
            ∙ apply_spec_again (heartbeat_or_zero F live) (exists live) suspend _ _ _)
    where
      lookup-self :
          (key : CrKey) (st : State F) (m : Dict CrKey (State F))
          → lookup key (insert key st m) ≡ some st
      lookup-self key st m = rw (lookup-insert key key st m, beq_refl key)

  set_depends-eq :
      (kind : String) (name : NamespacedName) (deps : List DependencyRef) (s : Store F)
      → set_depends F kind name deps s
        ≡ record s { depends = set_or_clear (crkey kind name) deps s.depends }
  unfolding set_depends
  set_depends-eq kind name [] s = refl
  set_depends-eq kind name (d ∷ ds) s = refl

  set_metric_labels-eq :
      (kind : String) (name : NamespacedName) (labels : Dict String String) (s : Store F)
      → set_metric_labels F kind name labels s
        ≡ record s { metric_labels = set_or_clear (crkey kind name) labels s.metric_labels }
  unfolding set_metric_labels
  set_metric_labels-eq kind name [] s = refl
  set_metric_labels-eq kind name (l ∷ ls) s = refl

  set_payload-eq :
      (name : NamespacedName) (suspend : Bool) (payload : Option HeartbeatSpecPayload) (s : Store F)
      → set_payload F name suspend payload s
        ≡ record s { heartbeats = put_heartbeat name suspend payload s.heartbeats }
  unfolding set_heartbeat_spec
  set_payload-eq name suspend none s = refl
  set_payload-eq name suspend (some payload) s = refl

  abbrev pub payload_of : SpecUpdate → Option HeartbeatSpecPayload
  payload_of msg = if msg.kind == kind_heartbeat then msg.heartbeat else none

  abbrev pub name_of : SpecUpdate → NamespacedName
  name_of msg = record { namespace = msg.namespace; name = msg.name }

  -- A live spec sets three maps, each at the spec's own key.
  pub on_spec-live :
      (msg : SpecUpdate) (s : Store F)
      → msg.deleted ≡ false
      → on_spec F msg s ≡ record s {
        depends =
            set_or_clear (crkey msg.kind (name_of msg)) (to_api_depends msg.depends) s.depends;
        metric_labels =
            set_or_clear (crkey msg.kind (name_of msg)) msg.metric_labels s.metric_labels;
        heartbeats = put_heartbeat (name_of msg) msg.suspend (payload_of msg) s.heartbeats;
      }
  unfolding on_spec
  on_spec-live msg s live =
      rw (live, set_depends-eq, set_metric_labels-eq)
        (elim (Bool-cases (msg.kind == kind_heartbeat)) [
          | inl beat ↦ rw beat (set_payload-eq _ _ _ _)
          | inr other ↦ rw other
        ])

  -- A tombstone erases the key from every map.
  pub on_spec-dead :
      (msg : SpecUpdate) (s : Store F)
      → msg.deleted ≡ true
      → on_spec F msg s ≡ record s {
        probes = erase (crkey msg.kind (name_of msg)) s.probes;
        tests = erase (crkey msg.kind (name_of msg)) s.tests;
        heartbeats = erase (crkey msg.kind (name_of msg)) s.heartbeats;
        depends = erase (crkey msg.kind (name_of msg)) s.depends;
        metric_labels = erase (crkey msg.kind (name_of msg)) s.metric_labels;
      }
  unfolding on_spec delete clear_depends clear_metric_labels
  on_spec-dead msg s dead = rw dead

  -- Handling a spec update a second time, live or deleted, changes nothing at all.
  pub on_spec_idem :
      (msg : SpecUpdate) (s : Store F) → on_spec F msg (on_spec F msg s) ≡ on_spec F msg s
  on_spec_idem msg s = elim (Bool-cases msg.deleted) [
    | inl dead ↦ rw (on_spec-dead msg _ dead) (rw (on_spec-dead msg s dead) (simp erase-erase))
    | inr live ↦ rw (on_spec-live msg _ live) (
        rw (on_spec-live msg s live) λ i. record s {
          heartbeats = put_heartbeat_idem (name_of msg) msg.suspend (payload_of msg) s.heartbeats i;
          depends =
              set_or_clear_idem (crkey msg.kind (name_of msg)) (to_api_depends msg.depends)
                s.depends i;
          metric_labels =
              set_or_clear_idem (crkey msg.kind (name_of msg)) msg.metric_labels s.metric_labels i;
        })
  ]

  apply_spec-SamePing :
      (st : State F) (suspend : Bool) (period grace : Float) (seed : Seed F)
      → SamePing F (apply_spec F st true period grace suspend seed) st
  unfolding apply_spec
  apply_spec-SamePing st suspend period grace seed = ground arith

  put_heartbeat-SamePing :
      (name : NamespacedName) (suspend : Bool) (payload : Option HeartbeatSpecPayload)
      (m : Dict CrKey (State F)) (key : CrKey) (st : State F)
      → lookup key m ≡ some st
      → (st' : State F) × (lookup key (put_heartbeat name suspend payload m) ≡ some st')
        × SamePing F st' st
  put_heartbeat-SamePing name suspend none m key st live = (st, live, (refl, refl, refl))
  put_heartbeat-SamePing name suspend (some payload) m key st live =
      elim (Bool-cases (crkey kind_heartbeat name == key)) [
        | inl same ↦
            let e = (key_beq_iff (crkey kind_heartbeat name) key).0 same in
            let at = subst (λ k. lookup k m ≡ some st) (sym e) live in
            (
              apply_payload suspend payload (lookup (crkey kind_heartbeat name) m),
              rw (lookup-insert (crkey kind_heartbeat name) key _ m, same) refl,
              rw at (apply_spec-SamePing st suspend _ _ _),
            )
        | inr other ↦ (st, rw (lookup-insert _ key _ m, other) live, (refl, refl, refl))
      ]

  -- A live spec never touches the last ping, its outcome or its exit code where the store has a
  -- state for the heartbeat, whatever the status that the spec replays.
  pub on_spec-SamePing :
      (msg : SpecUpdate) (s : Store F) (key : CrKey) (st : State F)
      → msg.deleted ≡ false
      → lookup key s.heartbeats ≡ some st
      → (st' : State F) × (lookup key (on_spec F msg s).heartbeats ≡ some st') × SamePing F st' st
  on_spec-SamePing msg s key st live h =
      rw (on_spec-live msg s live)
        (put_heartbeat-SamePing (name_of msg) msg.suspend (payload_of msg) s.heartbeats key st h)
