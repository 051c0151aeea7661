-- ===== src/Reconcilers/Settles.antt =====
-- The messages of the three kinds, and when a status is written again.
use synthetics_operator.Shared.{
  if_intro, none_ne, some_inj, String, refl, sym, ap, Bool, true, false, Option, none, some, List,
  [], arith, Bytes, beq_refl, ℤ, ◌≡◌, ◌∙◌, ◌∷◌, if◌then◌else◌,
}
use mathlib.Core.Path.{subst}
use synthetics_operator.Shared.Dict.{Dict}
use synthetics_operator.Results.{NamespacedName, Time, SpecUpdate}
use synthetics_operator.Api.{Condition, Object, Status}
use synthetics_operator.Specs.{
  http_probe_spec_update, dns_probe_spec_update, tcp_probe_spec_update, tombstone,
  resolve_request_headers,
}
use synthetics_operator.Metrics.{crkey}
use synthetics_operator.Scheduler.{key_of, unregister_call}
use synthetics_operator.Reconcilers.{
  kind_http_probe, Calls, World, Run, gets, Source, reconcile, reconcile_spec, reconcile_built,
  patch, send, schedule, with_call, reconciled, stop, probe_status_changed, same_ℤ, same_Bool,
  same_condition, same_conditions, suspended_condition, http_source, dns_source, tcp_source,
}
use synthetics_operator.Reconcilers.InStep.{Builds}

dns_source-Builds : Builds dns_source
unfolding dns_probe_spec_update
dns_source-Builds p spec e =
    subst (λ s. key_of s ≡ key_of (dns_probe_spec_update p)) (some_inj e) refl

pub tcp_source-Builds : Builds tcp_source
unfolding tcp_probe_spec_update
tcp_source-Builds p spec e =
    subst (λ s. key_of s ≡ key_of (tcp_probe_spec_update p)) (some_inj e) refl

module _ (read : NamespacedName → Option (Dict String Bytes)) where
  http_source-Builds : Builds (http_source read)
  unfolding http_probe_spec_update
  http_source-Builds p spec e =
      of_headers (resolve_request_headers read p.object.namespace p.request) e
    where
      of_headers :
          (found : Option (Dict String Bytes))
          → (elim found [ none ↦ none | some headers ↦ some (http_probe_spec_update p headers) ])
            ≡ some spec
          → key_of spec
            ≡ crkey kind_http_probe
                (record { namespace = p.object.namespace; name = p.object.name })
      of_headers none e = absurd (none_ne e)
      of_headers (some headers) e =
          subst (λ s. key_of s ≡ key_of (http_probe_spec_update p headers)) (some_inj e) refl

same_ℤ_refl : (a : ℤ) → same_ℤ a a ≡ true
same_ℤ_refl a = ground arith

same_Bool_refl : (a : Bool) → same_Bool a a ≡ true
same_Bool_refl a = ground arith

same_condition_refl : (c : Condition) → same_condition c c ≡ true
unfolding same_condition
same_condition_refl c =
    rw
      (
        beq_refl c.type,
        same_Bool_refl c.status,
        same_ℤ_refl c.observed_generation,
        same_ℤ_refl c.last_transition_time.unix,
        beq_refl c.last_transition_time.nsec,
        beq_refl c.reason,
        beq_refl c.message,
      )
      refl

same_conditions_refl : (cs : List Condition) → same_conditions cs cs ≡ true
unfolding same_conditions
same_conditions_refl [] = refl
same_conditions_refl (c ∷ cs) = rw (same_condition_refl c, same_conditions_refl cs) refl

unchanged : (status : Status) → probe_status_changed status status ≡ false
unfolding probe_status_changed
unchanged status =
    rw (same_ℤ_refl status.observed_generation, same_conditions_refl status.conditions) refl

-- A condition that was set, and is set again at another time, leaves the conditions as they are:
-- SetStatusCondition changes the time of a condition only with its status.
abbrev KeepsTime : Calls → Calls → Type 0
KeepsTime calls later =
    (conditions : List Condition) (c : Condition) (now : Time)
    → later.set_status_condition (calls.set_status_condition conditions c)
        (record c { last_transition_time = now })
      ≡ calls.set_status_condition conditions c

at_time :
    (generation : ℤ) (suspended : Bool) (now later : Time)
    → suspended_condition generation suspended later
      ≡ record (suspended_condition generation suspended now) { last_transition_time = later }
unfolding suspended_condition
at_time generation true now later = refl
at_time generation false now later = refl

reconciled-twice :
    (calls later : Calls) (object : Object) (status : Status)
    → KeepsTime calls later
    → reconciled later object (reconciled calls object status) ≡ reconciled calls object status
reconciled-twice calls later object status keeps =
    ap
      (λ (conditions : List Condition). record {
        observed_generation = object.generation;
        conditions = conditions;
      })
      (ap (later.set_status_condition (reconciled calls object status).conditions)
          (at_time object.generation object.suspend calls.now later.now)
        ∙ keeps status.conditions (suspended_condition object.generation object.suspend calls.now)
            later.now)

-- The status that is patched, if a test holds.
patched_if :
    (test : Bool) (run : Run) (w : World) (a : Status)
    → (if test then run else stop w).patched ≡ some a
    → run.patched ≡ some a
patched_if true run w a e = e
patched_if false run w a e = absurd (none_ne e)

patched_where :
    (changed patches : Bool) (w : World) (after a : Status)
    → (if changed
        then (if patches
            then record { world = w; patched = some after; failed = false }
            else stop w)
        else record { world = w; patched = none; failed = false }).patched
      ≡ some a
    → after ≡ a
patched_where true true w after a e = some_inj e
patched_where true false w after a e = absurd (none_ne e)
patched_where false patches w after a e = absurd (none_ne e)

send-patched : (calls : Calls) (msg : SpecUpdate) (w : World) → (send calls msg w).patched ≡ none
send-patched calls msg w = if_intro (λ (run : Run). run.patched ≡ none) (calls.takes msg) refl refl

module _ {P : Type 0} (source : Source P) where
  open source use {kind, object, status, build}

  reconcile_built-patched :
      (calls : Calls) (name : NamespacedName) (found : Option SpecUpdate) (p : P) (w : World)
      (a : Status)
      → (reconcile_built source calls name found p w).patched ≡ some a
      → reconciled calls (object p) (status p) ≡ a
  unfolding reconcile_spec
  reconcile_built-patched calls name none p w a e = absurd (none_ne e)
  reconcile_built-patched calls name (some spec) p w a e =
      patched_where _ calls.patches _ _ a (patched_if (calls.takes spec) _ w a e)

  reconcile_built-unchanged :
      (calls : Calls) (name : NamespacedName) (found : Option SpecUpdate) (p : P) (w : World)
      → reconciled calls (object p) (status p) ≡ status p
      → (reconcile_built source calls name found p w).patched ≡ none
  unfolding reconcile_spec
  reconcile_built-unchanged calls name none p w same = refl
  reconcile_built-unchanged calls name (some spec) p w same =
      if_intro (λ (run : Run). run.patched ≡ none) (calls.takes spec)
        (subst
          (λ (after : Status).
            (patch calls (status p) after (
              with_call (schedule kind name (object p) spec)
                (record { scheduler = w.scheduler; bus = spec ∷ w.bus }))).patched
            ≡ none)
          (sym same) (rw (unchanged (status p)) refl))
        refl

  reconcile-patched :
      (calls : Calls) (name : NamespacedName) (p : P) (w : World) (a : Status)
      → (reconcile source calls name (gets p) w).patched ≡ some a
      → reconciled calls (object p) (status p) ≡ a
  unfolding reconcile
  reconcile-patched calls name p w a = of_deleting (object p).deleting
    where
      of_deleting :
          (deleting : Bool)
          → (if deleting
              then send calls
                  (tombstone kind (object p).namespace (object p).name)
                  (with_call (unregister_call kind name) w)
              else reconcile_built source calls name (build p) p w).patched
            ≡ some a
          → reconciled calls (object p) (status p) ≡ a
      of_deleting true e = absurd (
          none_ne (
            sym (
              send-patched calls (tombstone kind (object p).namespace (object p).name)
                (with_call (unregister_call kind name) w))
            ∙ e))
      of_deleting false e = reconcile_built-patched calls name (build p) p w a e

  -- Once a reconciliation has patched a status, the next one of the same object, at any time and
  -- whatever the bus and the API server answer, patches nothing: the patches of one generation end.
  pub reconcile-settles :
      (calls later : Calls) (name : NamespacedName) (p q : P) (v w : World) (after : Status)
      → KeepsTime calls later
      → (reconcile source calls name (gets p) v).patched ≡ some after
      → object q ≡ object p
      → status q ≡ after
      → (reconcile source later name (gets q) w).patched ≡ none
  unfolding reconcile
  reconcile-settles calls later name p q v w after keeps patched same_object stored =
      if_intro (λ (run : Run). run.patched ≡ none) (object q).deleting
        (send-patched later (tombstone kind (object q).namespace (object q).name)
          (with_call (unregister_call kind name) w))
        (reconcile_built-unchanged later name (build q) q w (
          let made = reconcile-patched calls name p v after patched in
          rw (same_object, stored ∙ sym made)
            (reconciled-twice calls later (object p) (status p) keeps)))
