-- ===== src/Reconcilers/Tests.antt =====
-- Reconciliations of the TCP example, and witnesses of the theorems.
use synthetics_operator.Shared.{
  refl, ap, inl, inr, true, false, none, some, List, [], arith, Bool-cases, beq_refl, pos, ◌≡◌, ◌∷◌,
  ◌==◌, string_eq, bytes_eq, nat_eq, if◌then◌else◌,
}
use synthetics_operator.Shared.Dict.{lookup, insert, erase}
use synthetics_operator.Float.Exact.{exact}
use synthetics_operator.Results.{kind_tcp_probe, Time, NamespacedName}
use synthetics_operator.Api.{Condition, Status, TcpProbe}
use synthetics_operator.Specs.{tcp_probe_spec_update, tombstone, to_assertions, to_depends_refs}
use synthetics_operator.Metrics.{crkey, key_eq, new_store}
use synthetics_operator.Consumer.{on_spec}
use synthetics_operator.Consumer.Isolation.{IsForgotten}
use synthetics_operator.Scheduler.{new_scheduler, register, unregister}
use synthetics_operator.Scheduler.Table.{spec_at}
use synthetics_operator.Webhooks.Examples.{tcp_probe}
use synthetics_operator.Reconcilers.{
  Calls, World, gets, missing, reconcile, reconcile_spec, tcp_source, suspended_condition,
  same_condition, same_conditions, probe_status_changed, same_Bool,
}
use synthetics_operator.Reconcilers.InStep.{InStep, reconcile-InStep}
use synthetics_operator.Reconcilers.Settles.{tcp_source-Builds, reconcile-settles}
use synthetics_operator.Reconcilers.Gone.{reconcile-IsForgotten}

-- A condition of a type: the new one, with the old time where the status is the same.
abbrev replaced : Condition → Condition → Condition
replaced old new =
    if same_Bool old.status new.status
    then record new { last_transition_time = old.last_transition_time }
    else new

unfoldable set_condition : List Condition → Condition → List Condition
set_condition [] c = c ∷ []
set_condition (d ∷ ds) c = if d.type == c.type then replaced d c ∷ ds else d ∷ set_condition ds c

replaced_again :
    (d c : Condition) (now : Time)
    → replaced (replaced d c) (record c { last_transition_time = now }) ≡ replaced d c
replaced_again d c now = ground arith

replaced-type : (d c : Condition) → (replaced d c).type ≡ c.type
replaced-type d c = ground arith

set_condition_again :
    (ds : List Condition) (c : Condition) (now : Time)
    → set_condition (set_condition ds c) (record c { last_transition_time = now })
      ≡ set_condition ds c
unfolding set_condition
set_condition_again [] c now = rw (beq_refl c.type) (ap (λ (x : Condition). x ∷ []) (ground arith))
set_condition_again (d ∷ ds) c now = elim (Bool-cases (d.type == c.type)) [
  | inl same ↦
      rw (same, replaced-type d c, beq_refl c.type)
        (ap (λ (x : Condition). x ∷ ds) (replaced_again d c now))
  | inr other ↦
      rw (other, other) (ap (λ (rest : List Condition). d ∷ rest) (set_condition_again ds c now))
]

abbrev noon : Time
noon = record { unix = pos 43200; nsec = 0 }

abbrev later : Time
later = record { unix = pos 43260; nsec = 0 }

abbrev calls : Calls
calls = record {
  takes = λ msg. true;
  patches = true;
  set_status_condition = set_condition;
  now = noon;
}

-- A scheduler that runs, and an empty bus.
abbrev fresh : World
fresh = record { scheduler = record new_scheduler { started = true }; bus = [] }

abbrev name : NamespacedName
name = record { namespace = "ns"; name = "db" }

abbrev active : Status
active = record {
  observed_generation = pos 1;
  conditions =
      record {
        type = "Suspended";
        status = false;
        observed_generation = pos 1;
        last_transition_time = noon;
        reason = "Resumed";
        message = "probe execution is active";
      }
      ∷ [];
}

reconciling : Unit {0}
unfolding reconcile reconcile_spec register unregister lookup insert erase tcp_probe_spec_update
    tombstone to_assertions to_depends_refs suspended_condition set_condition same_condition
    same_conditions probe_status_changed
reconciling = tt

patched : (reconcile tcp_source calls name (gets tcp_probe) fresh).patched ≡ some active
unfolding reconciling
patched = refl

reconcile-InStep_example :
    InStep tcp_source name
      (gets tcp_probe)
      (reconcile tcp_source calls name (gets tcp_probe) fresh).world
unfolding reconciling
reconcile-InStep_example =
    reconcile-InStep tcp_source calls name fresh (gets tcp_probe) tcp_source-Builds refl refl refl

abbrev at_rest : TcpProbe
at_rest = record tcp_probe { status = active }

reconcile-settles_example :
    (reconcile tcp_source (record calls { now = later }) name (gets at_rest) fresh).patched ≡ none
reconcile-settles_example =
    reconcile-settles tcp_source calls (record calls { now = later }) name tcp_probe at_rest fresh
      fresh active set_condition_again patched refl refl

abbrev running : World
running = (reconcile tcp_source calls name (gets tcp_probe) fresh).world

reconcile-IsForgotten_example :
    (spec_at
        (crkey kind_tcp_probe name)
        (reconcile tcp_source calls name missing fresh).world.scheduler
      ≡ none)
    × IsForgotten exact
        (crkey kind_tcp_probe name)
        (on_spec exact (tombstone kind_tcp_probe "ns" "db") (new_store exact))
unfolding reconciling
reconcile-IsForgotten_example =
    reconcile-IsForgotten tcp_source exact calls name missing fresh
      (tombstone kind_tcp_probe "ns" "db") (new_store exact) tcp_source-Builds refl tt refl refl
      refl

abbrev refusing : Calls
refusing = record calls { takes = λ msg. false }
