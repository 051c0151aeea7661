-- ===== src/Consumer/Transitions.antt =====
-- The events of a run, of probes and of tests, are the changes of the stored results, each once and in
-- order.
use synthetics_operator.Shared.{
  if_intro, refl, sym, ap, inl, inr, Bool, true, false, not, Option, none, some, List, [],
  Bool-cases, str_beq_iff, beq_refl, beq_ne, All, ◌≡◌, ◌∙◌, ◌≢◌, ◌&&◌, ◌∷◌, ◌++◌, ◌==◌, string_eq,
  bytes_eq, nat_eq, if◌then◌else◌,
}
use synthetics_operator.Shared.Dict.{lookup, lookup-insert_self, lookup-insert_ne}
use mathlib.Core.Path.{subst}
use synthetics_operator.Metrics.{key_beq_iff}
use synthetics_operator.Float.{Float64}
use synthetics_operator.Results.{
  kind_heartbeat, kind_playwright_test, SpecUpdate, HeartbeatPing, TestResult, NamespacedName, Time,
}
use synthetics_operator.Metrics.{
  CrKey, key_eq, crkey, Result, notify, Effect, probe_transition, test_transition, ProbeState,
  TestState, probe_result, test_result, Store, upsert, upsert_test, record_test_result,
  record_playwright_result, record_heartbeat_ping,
}
use synthetics_operator.Consumer.{
  Message, spec, ping, probe, test, handle, run, on_spec, on_heartbeat_ping, on_probe_result,
  on_test_result,
}
use synthetics_operator.Consumer.Resync.{on_spec-live}

-- A change of which a callback tells: of what, from which result, and to which.
pub record Change : Type 0 where
  pub about : CrKey
  pub prev : Result
  pub next : Result

-- What the two callbacks, of probes and of tests, are told.
abbrev pub probe_change : Effect → Option Change
probe_change (probe_transition name kind prev next) =
    some (record { about = crkey kind name; prev = prev; next = next })
probe_change _ = none

abbrev pub test_change : Effect → Option Change
test_change (test_transition name kind prev next) =
    some (record { about = crkey kind name; prev = prev; next = next })
test_change _ = none

-- What a listener knows of one key after a change: none if the change does not start from what it
-- knows, or changes nothing.
abbrev pub learn : CrKey → Result → Option Change → Option Result
learn key known none = some known
learn key known (some change) =
    if change.about == key
    then (if change.prev == known && not (change.prev == change.next)
        then some change.next
        else none)
    else some known

abbrev and_then : Option Result → (Result → Option Result) → Option Result
and_then none f = none
and_then (some r) f = f r

and_then_ap :
    (o : Option Result) {f g : Result → Option Result}
    → ((r : Result) → f r ≡ g r)
    → and_then o f ≡ and_then o g
and_then_ap none e = refl
and_then_ap (some r) e = e r

and_then_assoc :
    (o : Option Result) (f g : Result → Option Result)
    → and_then (and_then o f) g ≡ and_then o (λ r. and_then (f r) g)
and_then_assoc none f g = refl
and_then_assoc (some r) f g = refl

module _ (change : Effect → Option Change) where
  -- What the listener of a callback knows of one key after the effects.
  unfoldable pub replay : CrKey → Result → List Effect → Option Result
  replay key known [] = some known
  replay key known (effect ∷ rest) =
      and_then (learn key known (change effect)) (λ r. replay key r rest)

  replay-append :
      (key : CrKey) (known : Result) (xs ys : List Effect)
      → replay key known (xs ++ ys) ≡ and_then (replay key known xs) (λ r. replay key r ys)
  unfolding replay
  replay-append key known [] ys = refl
  replay-append key known (effect ∷ xs) ys =
      and_then_ap (learn key known (change effect)) (λ r. replay-append key r xs ys)
      ∙ sym (
          and_then_assoc (learn key known (change effect)) (λ r. replay key r xs)
            (λ r. replay key r ys))

  -- A callback is told of the change of its own key, and no other key's.
  replay-notify :
      (key : CrKey) (set : Bool) (prev next : Result) (effect : Effect)
      → set ≡ true
      → change effect ≡ some (record { about = key; prev = prev; next = next })
      → replay key prev (notify set prev next effect) ≡ some next
  unfolding notify replay
  replay-notify key set prev next effect on tells = elim (Bool-cases (prev == next)) [
    | inl same ↦ rw (on, same) (ap some ((str_beq_iff prev next).0 same))
    | inr other ↦ rw (on, other, tells, beq_refl key, beq_refl prev, other)
  ]

  replay-notify_ne :
      (key : CrKey) (known : Result) (set : Bool) (prev next : Result) (effect : Effect)
      (about : CrKey)
      → change effect ≡ some (record { about = about; prev = prev; next = next })
      → about ≢ key
      → replay key known (notify set prev next effect) ≡ some known
  unfolding notify replay
  replay-notify_ne key known set prev next effect about tells h =
      of_test (set && not (prev == next))
    where
      of_test : (test : Bool) → replay key known (if test then effect ∷ [] else []) ≡ some known
      of_test true = rw (tells, beq_ne about key h) refl
      of_test false = refl

  -- Effects of which the callback is told nothing.
  replay-silent :
      (key : CrKey) (known : Result) (effects : List Effect)
      → All (λ effect. change effect ≡ none) effects
      → replay key known effects ≡ some known
  unfolding replay
  replay-silent key known [] h = refl
  replay-silent key known (effect ∷ rest) (p, ps) = rw p (replay-silent key known rest ps)

notify-All {ℓ} :
    (P : Effect → Type ℓ) (set : Bool) (prev next : Result) (effect : Effect)
    → P effect
    → All P (notify set prev next effect)
unfolding notify
notify-All P set prev next effect p = of_test (set && not (prev == next))
  where
    of_test : (test : Bool) → All P (if test then effect ∷ [] else [])
    of_test true = (p, tt)
    of_test false = tt

module _ (F : Float64) where
  abbrev pub stored_probe : CrKey → Store F → Result
  stored_probe key s = probe_result F (lookup key s.probes)

  abbrev pub stored_test : CrKey → Store F → Result
  stored_test key s = test_result F (lookup key s.tests)

  -- The message deletes no object.
  abbrev IsNoTombstone : Message F → Type 0
  IsNoTombstone (spec msg) = msg.deleted ≡ false
  IsNoTombstone (ping msg now) = Unit
  IsNoTombstone (probe msg) = Unit
  IsNoTombstone (test msg) = Unit

  -- The events of one message, from what is stored before it, lead to what is stored after it.
  abbrev Tells : CrKey → Store F → Store F × List Effect → Type 0
  Tells key s r =
      (replay probe_change key (stored_probe key s) r.1 ≡ some (stored_probe key r.0))
      × (replay test_change key (stored_test key s) r.1 ≡ some (stored_test key r.0))
      × (r.0.on_probe_transition ≡ s.on_probe_transition)
      × (r.0.on_test_transition ≡ s.on_test_transition)

  upsert-Tells :
      (key : CrKey) (name : NamespacedName) (state : ProbeState F) (s : Store F)
      → s.on_probe_transition ≡ true
      → Tells key s (upsert F name state s)
  unfolding upsert
  upsert-Tells key name state s set = (
    elim (Bool-cases (crkey state.kind name == key)) [
      | inl same ↦
          subst
            (λ k.
              replay probe_change k (stored_probe k s) (upsert F name state s).1
              ≡ some (stored_probe k (upsert F name state s).0))
            ((key_beq_iff (crkey state.kind name) key).0 same)
            (replay-notify probe_change (crkey state.kind name) s.on_probe_transition _ state.result
                _ set refl
              ∙ ap (λ (o : Option (ProbeState F)). some (probe_result F o))
                  (sym (lookup-insert_self (crkey state.kind name) state s.probes)))
      | inr other ↦
          let differs : crkey state.kind name ≢ key =
            λ e. cc (other, (key_beq_iff (crkey state.kind name) key).1 e) in
          replay-notify_ne probe_change key (stored_probe key s) s.on_probe_transition _
            state.result _ (crkey state.kind name) refl differs
          ∙ ap (λ (o : Option (ProbeState F)). some (probe_result F o))
              (sym (lookup-insert_ne (crkey state.kind name) key state s.probes differs))
    ],
    replay-silent test_change key (stored_test key s) _ (
        notify-All (λ effect. test_change effect ≡ none) s.on_probe_transition _ state.result _
          refl),
    refl,
    refl,
  )

  upsert_test-Tells :
      (key : CrKey) (name : NamespacedName) (state : TestState F) (s : Store F)
      → s.on_test_transition ≡ true
      → Tells key s (upsert_test F name state s)
  unfolding upsert_test
  upsert_test-Tells key name state s set = (
    replay-silent probe_change key (stored_probe key s) _ (
        notify-All (λ effect. probe_change effect ≡ none) s.on_test_transition _ state.result _
          refl),
    elim (Bool-cases (crkey state.kind name == key)) [
      | inl same ↦
          subst
            (λ k.
              replay test_change k (stored_test k s) (upsert_test F name state s).1
              ≡ some (stored_test k (upsert_test F name state s).0))
            ((key_beq_iff (crkey state.kind name) key).0 same)
            (replay-notify test_change (crkey state.kind name) s.on_test_transition _ state.result _
                set refl
              ∙ ap (λ (o : Option (TestState F)). some (test_result F o))
                  (sym (lookup-insert_self (crkey state.kind name) state s.tests)))
      | inr other ↦
          let differs : crkey state.kind name ≢ key =
            λ e. cc (other, (key_beq_iff (crkey state.kind name) key).1 e) in
          replay-notify_ne test_change key (stored_test key s) s.on_test_transition _ state.result _
            (crkey state.kind name) refl differs
          ∙ ap (λ (o : Option (TestState F)). some (test_result F o))
              (sym (lookup-insert_ne (crkey state.kind name) key state s.tests differs))
    ],
    refl,
    refl,
  )

  on_heartbeat_ping-Tells :
      (key : CrKey) (msg : HeartbeatPing) (now : Time) (s : Store F)
      → key.kind ≢ kind_heartbeat
      → Tells key s (on_heartbeat_ping F msg now s)
  unfolding on_heartbeat_ping record_heartbeat_ping replay
  on_heartbeat_ping-Tells key msg now s h = (
    replay-notify_ne probe_change key (stored_probe key s) s.on_probe_transition _ _ _
        (crkey kind_heartbeat (record { namespace = msg.namespace; name = msg.name })) refl
        (λ e. h (sym (ap (λ (k : CrKey). k.kind) e))),
    replay-silent test_change key (stored_test key s) _
        (notify-All (λ effect. test_change effect ≡ none) s.on_probe_transition _ _ _ refl),
    refl,
    refl,
  )

  on_spec-Tells :
      (key : CrKey) (msg : SpecUpdate) (s : Store F)
      → msg.deleted ≡ false
      → Tells key s (on_spec F msg s, [])
  unfolding replay
  on_spec-Tells key msg s live = rw (on_spec-live F msg s live) (refl, refl, refl, refl)

  -- The event that counts a result is no change.
  on_test_result-Tells :
      (key : CrKey) (msg : TestResult) (s : Store F)
      → s.on_test_transition ≡ true
      → Tells key s (on_test_result F msg s)
  unfolding on_test_result record_test_result record_playwright_result replay
  on_test_result-Tells key msg s set =
      if_intro (Tells key s) (msg.kind == kind_playwright_test) (upsert_test-Tells key _ _ s set)
        (upsert_test-Tells key _ _ s set)

  handle-Tells :
      (key : CrKey) (m : Message F) (s : Store F)
      → key.kind ≢ kind_heartbeat
      → s.on_probe_transition ≡ true
      → s.on_test_transition ≡ true
      → IsNoTombstone m
      → Tells key s (handle F m s)
  unfolding handle on_probe_result
  handle-Tells key (spec msg) s h set_probe set_test live = on_spec-Tells key msg s live
  handle-Tells key (ping msg now) s h set_probe set_test live =
      on_heartbeat_ping-Tells key msg now s h
  handle-Tells key (probe msg) s h set_probe set_test live = upsert-Tells key _ _ s set_probe
  handle-Tells key (test msg) s h set_probe set_test live = on_test_result-Tells key msg s set_test

  -- With both callbacks set, and no deletion among the messages, replaying what the callback of the
  -- probes is told in a run, for a key that is no heartbeat's, from the key's stored result of a probe
  -- gives the stored one after the run, and so does what the callback of the tests is told from the
  -- stored result of a test: every event starts from the result before it and ends in another one, and
  -- no change goes unreported.
  pub run-replay :
      (key : CrKey) (ms : List (Message F)) (s : Store F)
      → key.kind ≢ kind_heartbeat
      → s.on_probe_transition ≡ true
      → s.on_test_transition ≡ true
      → All IsNoTombstone ms
      → (replay probe_change key (stored_probe key s) (run F ms s).1
          ≡ some (stored_probe key (run F ms s).0))
        × (replay test_change key (stored_test key s) (run F ms s).1
            ≡ some (stored_test key (run F ms s).0))
  unfolding run
  run-replay key [] s h set_probe set_test live = unfold replay in (refl, refl)
  run-replay key (m ∷ ms) s h set_probe set_test (alive, live) =
      let (probes, tests, kept_probe, kept_test) =
        handle-Tells key m s h set_probe set_test alive in
      let (later_probes, later_tests) =
        run-replay key ms (handle F m s).0 h (kept_probe ∙ set_probe) (kept_test ∙ set_test) live in
      (
        rw (replay-append probe_change key (stored_probe key s) (handle F m s).1 _, probes)
            later_probes,
        rw (replay-append test_change key (stored_test key s) (handle F m s).1 _, tests)
            later_tests,
      )
