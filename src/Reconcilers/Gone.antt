-- ===== src/Reconcilers/Gone.antt =====
-- What the scheduler and the metrics consumer keep of an object that is gone.
use synthetics_operator.Shared.{
  none_ne, some_inj, refl, sym, Bool, true, false, Option, none, some, ◌≡◌, ◌∙◌, if◌then◌else◌,
}
use mathlib.Core.Path.{subst}
use synthetics_operator.Float.{Float64}
use synthetics_operator.Results.{NamespacedName, SpecUpdate}
use synthetics_operator.Specs.{tombstone}
use synthetics_operator.Metrics.{crkey, Store}
use synthetics_operator.Consumer.{on_spec}
use synthetics_operator.Consumer.Isolation.{IsForgotten, on_spec-IsForgotten}
use synthetics_operator.Scheduler.Table.{spec_at}
use synthetics_operator.Reconcilers.{
  Calls, World, Get, gets, missing, unreadable, Source, reconcile, reconcile_spec, reconcile_built,
  stop,
}
use synthetics_operator.Reconcilers.InStep.{Builds, IsNamed, sent, timed, told, reconcile-InStep}

module _ {P : Type 0} (source : Source P) where
  open source use {kind, object, build}

  -- There is no object, or it is being deleted.
  abbrev is_gone : Get P → Bool
  is_gone (gets p) = (object p).deleting
  is_gone missing = true
  is_gone unreadable = false

  untimed : (get : Get P) → is_gone get ≡ true → timed source get ≡ none
  untimed (gets p) gone = rw gone refl
  untimed missing gone = refl
  untimed unreadable gone = refl

  -- What is told of it leaves nothing under its name.
  told-IsForgotten :
      (F : Float64) (name : NamespacedName) (get : Get P) (msg : SpecUpdate) (s : Store F)
      → is_gone get ≡ true
      → IsNamed source name get
      → told source name get ≡ some msg
      → IsForgotten F (crkey kind name) (on_spec F msg s)
  unfolding tombstone
  told-IsForgotten F name missing msg s gone named e =
      subst (λ (m : SpecUpdate). IsForgotten F (crkey kind name) (on_spec F m s)) (some_inj e)
        (on_spec-IsForgotten F (tombstone kind name.namespace name.name) s refl)
  told-IsForgotten F name unreadable msg s gone named e = absurd (none_ne e)
  told-IsForgotten F name (gets p) msg s gone named e =
      subst (λ (m : SpecUpdate). IsForgotten F (crkey kind name) (on_spec F m s))
        (some_inj (
          subst
            (λ (dead : Bool).
              (if dead then some (tombstone kind (object p).namespace (object p).name) else build p)
              ≡ some msg)
            gone e))
        (subst
          (λ (n : NamespacedName).
            IsForgotten F (crkey kind n)
              (on_spec F (tombstone kind (object p).namespace (object p).name) s))
          named
          (on_spec-IsForgotten F (tombstone kind (object p).namespace (object p).name) s refl))

  -- After a reconciliation that returns no error, an object that is gone has no timer, and a consumer
  -- that handles the message that was sent holds nothing under its name, in any map of its store.
  pub reconcile-IsForgotten :
      (F : Float64) (calls : Calls) (name : NamespacedName) (get : Get P) (w : World)
      (msg : SpecUpdate) (s : Store F)
      → Builds source
      → w.scheduler.started ≡ true
      → IsNamed source name get
      → is_gone get ≡ true
      → (reconcile source calls name get w).failed ≡ false
      → sent source (reconcile source calls name get w).world.bus ≡ some msg
      → (spec_at (crkey kind name) (reconcile source calls name get w).world.scheduler ≡ none)
        × IsForgotten F (crkey kind name) (on_spec F msg s)
  reconcile-IsForgotten F calls name get w msg s builds started named gone ok last =
      let (timer, message) = reconcile-InStep source calls name w get builds started named ok in
      (timer ∙ untimed get gone, told-IsForgotten F name get msg s gone named (sym message ∙ last))

  -- Where the bus refuses the message of a live object, or its headers do not resolve, an error is
  -- returned, and neither the scheduler nor the bus nor the status changes.
  reconcile-refused :
      (calls : Calls) (name : NamespacedName) (p : P) (w : World)
      → (object p).deleting ≡ false
      → ((spec : SpecUpdate) → build p ≡ some spec → calls.takes spec ≡ false)
      → reconcile source calls name (gets p) w ≡ stop w
  unfolding reconcile reconcile_spec
  reconcile-refused calls name p w live refused = rw live (of_built (build p) refused)
    where
      of_built :
          (found : Option SpecUpdate)
          → ((spec : SpecUpdate) → found ≡ some spec → calls.takes spec ≡ false)
          → reconcile_built source calls name found p w ≡ stop w
      of_built none refused = refl
      of_built (some spec) refused = rw (refused spec refl) refl
