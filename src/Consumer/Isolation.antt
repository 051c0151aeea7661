-- ===== src/Consumer/Isolation.antt =====
-- A message changes what is stored under its own identity, and nothing else.
use synthetics_operator.Shared.{
  refl, ap, inl, inr, true, Option, none, some, List, [], Bool-cases, Eq, str_beq_iff, ◌≡◌, ◌∙◌,
  ◌≢◌, ◌∷◌, ◌==◌, string_eq, bytes_eq, nat_eq,
}
use synthetics_operator.Shared.Dict.{
  Dict, lookup, lookup-insert_ne, lookup-erase_self, lookup-erase_ne,
}
use synthetics_operator.Float.{Float64}
use synthetics_operator.Lifecycle.{State}
use synthetics_operator.Results.{
  kind_heartbeat, kind_playwright_test, SpecUpdate, TestResult, HeartbeatSpecPayload,
}
use synthetics_operator.Metrics.{
  CrKey, key_eq, crkey, Store, upsert, upsert_test, record_test_result, record_playwright_result,
  record_heartbeat_ping,
}
use synthetics_operator.Consumer.{
  Message, spec, ping, probe, test, handle, on_spec, on_heartbeat_ping, on_probe_result,
  probe_state, on_test_result, to_api_depends,
}
use synthetics_operator.Consumer.Resync.{
  set_or_clear, put_heartbeat, name_of, payload_of, on_spec-live, on_spec-dead,
}

set_or_clear-ne {ℓ κ} :
    {K : Type ℓ} {V : Type κ} ⦃e : Eq K⦄ (k j : K) (vs : List V) (m : Dict K (List V))
    → k ≢ j
    → lookup j (set_or_clear k vs m) ≡ lookup j m
set_or_clear-ne k j [] m h = lookup-erase_ne k j m h
set_or_clear-ne k j (v ∷ vs) m h = lookup-insert_ne k j (v ∷ vs) m h

module _ (F : Float64) where
  -- The identity that a message is about.
  abbrev pub subject : Message F → CrKey
  subject (spec msg) = crkey msg.kind (record { namespace = msg.namespace; name = msg.name })
  subject (ping msg now) =
      crkey kind_heartbeat (record { namespace = msg.namespace; name = msg.name })
  subject (probe msg) = crkey msg.kind (record { namespace = msg.namespace; name = msg.name })
  subject (test msg) = crkey msg.kind (record { namespace = msg.namespace; name = msg.name })

  -- Two stores hold the same under `key`, in each of the five maps.
  pub record SameAt (key : CrKey) (s t : Store F) : Type 0 where
    pub probes : lookup key s.probes ≡ lookup key t.probes
    pub tests : lookup key s.tests ≡ lookup key t.tests
    pub heartbeats : lookup key s.heartbeats ≡ lookup key t.heartbeats
    pub depends : lookup key s.depends ≡ lookup key t.depends
    pub metric_labels : lookup key s.metric_labels ≡ lookup key t.metric_labels

  put_heartbeat-ne :
      (msg : SpecUpdate) (key : CrKey) (m : Dict CrKey (State F))
      → crkey msg.kind (name_of F msg) ≢ key
      → lookup key (put_heartbeat F (name_of F msg) msg.suspend (payload_of F msg) m) ≡ lookup key m
  put_heartbeat-ne msg key m h = elim (Bool-cases (msg.kind == kind_heartbeat)) [
    | inr other ↦ rw other
    | inl beat ↦ rw beat (
        beat_ne msg.heartbeat
          (λ e. h (ap (λ k. crkey k (name_of F msg)) ((str_beq_iff _ _).0 beat) ∙ e)))
  ]
    where
      beat_ne :
          (payload : Option HeartbeatSpecPayload)
          → crkey kind_heartbeat (name_of F msg) ≢ key
          → lookup key (put_heartbeat F (name_of F msg) msg.suspend payload m) ≡ lookup key m
      beat_ne none k = refl
      beat_ne (some payload) k = lookup-insert_ne (crkey kind_heartbeat (name_of F msg)) key _ m k

  on_spec-SameAt :
      (msg : SpecUpdate) (key : CrKey) (s : Store F)
      → crkey msg.kind (name_of F msg) ≢ key
      → SameAt key (on_spec F msg s) s
  on_spec-SameAt msg key s h = elim (Bool-cases msg.deleted) [
    | inl dead ↦ rw (on_spec-dead F msg s dead) (record {
      probes = lookup-erase_ne _ key s.probes h;
      tests = lookup-erase_ne _ key s.tests h;
      heartbeats = lookup-erase_ne _ key s.heartbeats h;
      depends = lookup-erase_ne _ key s.depends h;
      metric_labels = lookup-erase_ne _ key s.metric_labels h;
    })
    | inr live ↦ rw (on_spec-live F msg s live) (record {
      probes = refl;
      tests = refl;
      heartbeats = put_heartbeat-ne msg key s.heartbeats h;
      depends = set_or_clear-ne _ key (to_api_depends msg.depends) s.depends h;
      metric_labels = set_or_clear-ne _ key msg.metric_labels s.metric_labels h;
    })
  ]

  on_test_result-SameAt :
      (msg : TestResult) (key : CrKey) (s : Store F)
      → subject (test msg) ≢ key
      → SameAt key (on_test_result F msg s).0 s
  unfolding on_test_result record_test_result record_playwright_result upsert_test
  on_test_result-SameAt msg key s h = elim (Bool-cases (msg.kind == kind_playwright_test)) [
    | inl suite ↦ rw suite (record {
      probes = refl;
      tests = lookup-insert_ne _ key _ s.tests (λ e. h (
          ap (λ k. crkey k (record { namespace = msg.namespace; name = msg.name }))
            ((str_beq_iff _ _).0 suite)
          ∙ e));
      heartbeats = refl;
      depends = refl;
      metric_labels = refl;
    })
    | inr single ↦ rw single (record {
      probes = refl;
      tests = lookup-insert_ne _ key _ s.tests h;
      heartbeats = refl;
      depends = refl;
      metric_labels = refl;
    })
  ]

  -- Whatever the message, a key other than its subject keeps its entries in all five maps.
  pub handle-SameAt :
      (m : Message F) (key : CrKey) (s : Store F) → subject m ≢ key → SameAt key (handle F m s).0 s
  unfolding handle on_heartbeat_ping record_heartbeat_ping on_probe_result upsert probe_state
  handle-SameAt (spec msg) key s h = on_spec-SameAt msg key s h
  handle-SameAt (ping msg now) key s h = record {
    probes = refl;
    tests = refl;
    heartbeats = lookup-insert_ne _ key _ s.heartbeats h;
    depends = refl;
    metric_labels = refl;
  }
  handle-SameAt (probe msg) key s h = record {
    probes = lookup-insert_ne _ key _ s.probes h;
    tests = refl;
    heartbeats = refl;
    depends = refl;
    metric_labels = refl;
  }
  handle-SameAt (test msg) key s h = on_test_result-SameAt msg key s h

  -- Nothing is stored under the key.
  pub record IsForgotten (key : CrKey) (s : Store F) : Type 0 where
    pub no_probe : lookup key s.probes ≡ none
    pub no_test : lookup key s.tests ≡ none
    pub no_heartbeat : lookup key s.heartbeats ≡ none
    pub no_depends : lookup key s.depends ≡ none
    pub no_metric_labels : lookup key s.metric_labels ≡ none

  -- A tombstone leaves nothing under its identity, in any map.
  pub on_spec-IsForgotten :
      (msg : SpecUpdate) (s : Store F)
      → msg.deleted ≡ true
      → IsForgotten
          (crkey msg.kind (record { namespace = msg.namespace; name = msg.name }))
          (on_spec F msg s)
  on_spec-IsForgotten msg s dead = rw (on_spec-dead F msg s dead) (record {
    no_probe = lookup-erase_self _ s.probes;
    no_test = lookup-erase_self _ s.tests;
    no_heartbeat = lookup-erase_self _ s.heartbeats;
    no_depends = lookup-erase_self _ s.depends;
    no_metric_labels = lookup-erase_self _ s.metric_labels;
  })
