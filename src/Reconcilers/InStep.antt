-- ===== src/Reconcilers/InStep.antt =====
-- After a reconciliation without an error, the scheduler and the bus are in step with the object.
use synthetics_operator.Shared.{
  refl, ap, Bool, true, false, Option, none, some, List, [], arith, beq_refl, ◌≡◌, ◌∙◌, ◌∷◌,
  if◌then◌else◌,
}
use mathlib.Core.Path.{subst}
use synthetics_operator.Results.{NamespacedName, SpecUpdate}
use synthetics_operator.Metrics.{crkey, key_eq}
use synthetics_operator.Specs.{tombstone}
use synthetics_operator.Scheduler.{perform, register_call, unregister_call, key_of}
use synthetics_operator.Scheduler.Table.{spec_at, last_call, perform-spec_at}
use synthetics_operator.Reconcilers.{
  Status, Calls, World, Run, Get, gets, missing, unreadable, Source, reconcile, reconcile_spec,
  reconcile_built, patch, send, schedule, with_call, reconciled, stop, probe_status_changed,
}

-- A step that stops with an error where a test fails has, without an error, what it has where the
-- test holds.
if_succeeds :
    (test : Bool) (run : Run) (w : World) (Q : World → Type 0)
    → (run.failed ≡ false → Q run.world)
    → (if test then run else stop w).failed ≡ false
    → Q (if test then run else stop w).world
if_succeeds true run w Q q ok = q ok
if_succeeds false run w Q q ok = ground (arith, ok)

patch-succeeds :
    (calls : Calls) (before after : Status) (w : World) (Q : World → Type 0)
    → Q w
    → (patch calls before after w).failed ≡ false
    → Q (patch calls before after w).world
patch-succeeds calls before after w Q q = of_test (probe_status_changed before after)
  where
    of_test :
        (changed : Bool)
        → (if changed
            then (if calls.patches
                then record { world = w; patched = some after; failed = false }
                else stop w)
            else record { world = w; patched = none; failed = false }).failed
          ≡ false
        → Q
            (if changed
              then (if calls.patches
                  then record { world = w; patched = some after; failed = false }
                  else stop w)
              else record { world = w; patched = none; failed = false }).world
    of_test true ok = if_succeeds calls.patches _ w Q (λ _. q) ok
    of_test false ok = q

module _ {P : Type 0} (source : Source P) where
  open source use {kind, object, build}

  -- A message that is built is about its object.
  abbrev pub Builds : Type 0
  Builds =
      (p : P) (spec : SpecUpdate)
      → build p ≡ some spec
      → key_of spec
        ≡ crkey kind (record { namespace = (object p).namespace; name = (object p).name })

  -- The object of a request has the name of the request.
  abbrev pub IsNamed : NamespacedName → Get P → Type 0
  IsNamed name (gets p) = record { namespace = (object p).namespace; name = (object p).name } ≡ name
  IsNamed name missing = Unit
  IsNamed name unreadable = Unit

  -- The spec that the timer of an object is to publish: none of a suspended one, or of one that is
  -- being deleted, or is gone.
  abbrev pub timed : Get P → Option SpecUpdate
  timed (gets p) =
      if (object p).deleting then none else if (object p).suspend then none else build p
  timed missing = none
  timed unreadable = none

  -- The message that tells of an object.
  abbrev pub told : NamespacedName → Get P → Option SpecUpdate
  told name (gets p) =
      if (object p).deleting
      then some (tombstone kind (object p).namespace (object p).name)
      else build p
  told name missing = some (tombstone kind name.namespace name.name)
  told name unreadable = none

  -- The message that was sent last.
  abbrev pub sent : List SpecUpdate → Option SpecUpdate
  sent [] = none
  sent (msg ∷ _) = some msg

  -- The timer of the name, and the last message, are those of the object.
  abbrev pub InStep : NamespacedName → Get P → World → Type 0
  InStep name get w =
      (spec_at (crkey kind name) w.scheduler ≡ timed get) × (sent w.bus ≡ told name get)

  unregistered :
      (name : NamespacedName) (w : World)
      → w.scheduler.started ≡ true
      → spec_at (crkey kind name) (perform (unregister_call kind name) w.scheduler) ≡ none
  unfolding last_call
  unregistered name w started =
      perform-spec_at (unregister_call kind name) (crkey kind name) w.scheduler started
      ∙ rw (beq_refl (crkey kind name)) refl

  registered :
      (spec : SpecUpdate) (name : NamespacedName) (w : World)
      → w.scheduler.started ≡ true
      → key_of spec ≡ crkey kind name
      → spec_at (crkey kind name) (perform (register_call spec) w.scheduler) ≡ some spec
  unfolding last_call
  registered spec name w started about =
      subst (λ key. spec_at key (perform (register_call spec) w.scheduler) ≡ some spec) about
        (perform-spec_at (register_call spec) (key_of spec) w.scheduler started
          ∙ rw (beq_refl (key_of spec)) refl)

  scheduled :
      (p : P) (name : NamespacedName) (spec : SpecUpdate) (w : World)
      → w.scheduler.started ≡ true
      → key_of spec ≡ crkey kind name
      → spec_at (crkey kind name) (perform (schedule kind name (object p) spec) w.scheduler)
        ≡ (if (object p).suspend then none else some spec)
  scheduled p name spec w started about = of_suspend (object p).suspend
    where
      of_suspend :
          (suspend : Bool)
          → spec_at (crkey kind name) (
              perform
                (if suspend then unregister_call kind name else register_call spec)
                w.scheduler)
            ≡ (if suspend then none else some spec)
      of_suspend true = unregistered name w started
      of_suspend false = registered spec name w started about

  module _ (calls : Calls) (name : NamespacedName) (w : World) where
    abbrev Timed : P → SpecUpdate → World → Type 0
    Timed p spec v =
        (spec_at (crkey kind name) v.scheduler ≡ (if (object p).suspend then none else some spec))
        × (sent v.bus ≡ some spec)

    reconcile_built-InStep :
        (p : P) (found : Option SpecUpdate)
        → w.scheduler.started ≡ true
        → ((spec : SpecUpdate) → found ≡ some spec → key_of spec ≡ crkey kind name)
        → (reconcile_built source calls name found p w).failed ≡ false
        → (spec_at (crkey kind name) (reconcile_built source calls name found p w).world.scheduler
            ≡ (if (object p).suspend then none else found))
          × (sent (reconcile_built source calls name found p w).world.bus ≡ found)
    unfolding reconcile_spec
    reconcile_built-InStep p none started about ok = ground (arith, ok)
    reconcile_built-InStep p (some spec) started about ok =
        if_succeeds (calls.takes spec) _ w (Timed p spec)
          (patch-succeeds calls (source.status p) (reconciled calls (object p) (source.status p))
            (with_call (schedule kind name (object p) spec)
              (record { scheduler = w.scheduler; bus = spec ∷ w.bus }))
            (Timed p spec) (scheduled p name spec w started (about spec refl), refl))
          ok

    -- A reconciliation that returns no error, of a scheduler that runs, leaves it with the timer that
    -- the object is to have, and has sent the message that tells of the object last: a suspended
    -- object, one that is being deleted and one that is gone have no timer.
    pub reconcile-InStep :
        (get : Get P)
        → Builds
        → w.scheduler.started ≡ true
        → IsNamed name get
        → (reconcile source calls name get w).failed ≡ false
        → InStep name get (reconcile source calls name get w).world
    unfolding reconcile
    reconcile-InStep missing builds started named ok =
        if_succeeds (calls.takes _) _ _ (InStep name missing)
          (λ _. (unregistered name w started, refl)) ok
    reconcile-InStep unreadable builds started named ok = ground (arith, ok)
    reconcile-InStep (gets p) builds started named ok = of_deleting (object p).deleting ok
      where
        of_deleting :
            (deleting : Bool)
            → (if deleting
                then send calls
                    (tombstone kind (object p).namespace (object p).name)
                    (with_call (unregister_call kind name) w)
                else reconcile_built source calls name (build p) p w).failed
              ≡ false
            → (spec_at
                  (crkey kind name)
                  (if deleting
                    then send calls
                        (tombstone kind (object p).namespace (object p).name)
                        (with_call (unregister_call kind name) w)
                    else reconcile_built source calls name (build p) p w).world.scheduler
                ≡ (if deleting then none else if (object p).suspend then none else build p))
              × (sent
                    (if deleting
                      then send calls
                          (tombstone kind (object p).namespace (object p).name)
                          (with_call (unregister_call kind name) w)
                      else reconcile_built source calls name (build p) p w).world.bus
                  ≡ (if deleting
                      then some (tombstone kind (object p).namespace (object p).name)
                      else build p))
        of_deleting true ok =
            if_succeeds (calls.takes (tombstone kind (object p).namespace (object p).name)) _ _
              (λ (v : World).
                (spec_at (crkey kind name) v.scheduler ≡ none)
                × (sent v.bus ≡ some (tombstone kind (object p).namespace (object p).name)))
              (λ _. (unregistered name w started, refl)) ok
        of_deleting false ok =
            reconcile_built-InStep p (build p) started
              (λ spec e. builds p spec e ∙ ap (crkey kind) named) ok
