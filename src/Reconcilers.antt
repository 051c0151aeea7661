-- ===== src/Reconcilers.antt =====
-- controllers/http_probe_controller.go, dns_probe_controller.go, tcp_probe_controller.go and
-- status.go. The three Reconcile methods have one body, over what differs between the kinds. The API
-- server and the bus answer as the parameter `Calls` says, and so does apimachinery's
-- SetStatusCondition. A time is equal to another in its seconds and nanoseconds.
pub mod Settles
pub mod Gone
pub mod InStep
mod Tests
use synthetics_operator.Shared.{
  String, Bool, true, false, not, Option, none, some, List, [], Bytes, ℤ, leb_ℤ, ◌&&◌, ◌||◌, ◌∷◌,
  ◌==◌, string_eq, bytes_eq, nat_eq, if◌then◌else◌,
}
use synthetics_operator.Shared.Dict.{Dict}
use synthetics_operator.Results.{
  Kind, kind_http_probe, kind_dns_probe, kind_tcp_probe, Time, NamespacedName, SpecUpdate,
}
use synthetics_operator.Metrics.{CrKey, crkey}
use synthetics_operator.Api.{Condition, Object, Status, HttpProbe, DnsProbe, TcpProbe}
use synthetics_operator.Specs.{
  http_probe_spec_update, dns_probe_spec_update, tcp_probe_spec_update, tombstone,
  resolve_request_headers,
}
use synthetics_operator.Scheduler.{Scheduler, Call, perform, register_call, unregister_call}

abbrev pub same_ℤ : ℤ → ℤ → Bool
same_ℤ a b = leb_ℤ a b && leb_ℤ b a

abbrev pub same_Bool : Bool → Bool → Bool
same_Bool a b = if a then b else not b

-- beforeConds[i] == afterConds[i]
unfoldable pub same_condition : Condition → Condition → Bool
same_condition a b =
    a.type == b.type
    && same_Bool a.status b.status
    && same_ℤ a.observed_generation b.observed_generation
    && same_ℤ a.last_transition_time.unix b.last_transition_time.unix
    && a.last_transition_time.nsec == b.last_transition_time.nsec
    && a.reason == b.reason
    && a.message == b.message

unfoldable pub same_conditions : List Condition → List Condition → Bool
same_conditions [] [] = true
same_conditions [] (_ ∷ _) = false
same_conditions (_ ∷ _) [] = false
same_conditions (a ∷ before) (b ∷ after) = same_condition a b && same_conditions before after

unfoldable pub probe_status_changed : Status → Status → Bool
probe_status_changed before after =
    not (same_ℤ before.observed_generation after.observed_generation)
    || not (same_conditions before.conditions after.conditions)

-- What a reconciliation is answered: whether the bus takes a message, whether the status is patched,
-- what SetStatusCondition makes of conditions, and the clock.
pub record Calls : Type 0 where
  pub takes : SpecUpdate → Bool
  pub patches : Bool
  pub set_status_condition : List Condition → Condition → List Condition
  pub now : Time

unfoldable pub suspended_condition : ℤ → Bool → Time → Condition
suspended_condition generation suspended now =
    if suspended
    then record {
      type = "Suspended";
      status = true;
      observed_generation = generation;
      last_transition_time = now;
      reason = "Suspended";
      message = "probe execution is suspended";
    }
    else record {
      type = "Suspended";
      status = false;
      observed_generation = generation;
      last_transition_time = now;
      reason = "Resumed";
      message = "probe execution is active";
    }

abbrev pub set_suspended_condition : Calls → List Condition → ℤ → Bool → List Condition
set_suspended_condition calls conditions generation suspended =
    calls.set_status_condition conditions (suspended_condition generation suspended calls.now)

-- The status that Reconcile makes.
abbrev pub reconciled : Calls → Object → Status → Status
reconciled calls object status = record {
  observed_generation = object.generation;
  conditions = set_suspended_condition calls status.conditions object.generation object.suspend;
}

-- The scheduler, and the messages that the bus took, the last one first.
pub record World : Type 0 where
  pub scheduler : Scheduler
  pub bus : List SpecUpdate

-- The end of a reconciliation: the world, the status that was patched, and whether an error is
-- returned.
pub record Run : Type 0 where
  pub world : World
  pub patched : Option Status
  pub failed : Bool

-- What Get answers: an object, that there is none, or another error.
pub data Get (P : Type 0) : Type 0 where
  gets : P → Get P
  missing unreadable : Get P

-- What differs between the kinds of probe. `build` is none where the headers do not resolve.
pub record Source (P : Type 0) : Type 0 where
  pub kind : Kind
  pub object : P → Object
  pub status : P → Status
  pub build : P → Option SpecUpdate

abbrev pub stop : World → Run
stop w = record { world = w; patched = none; failed = true }

-- return ctrl.Result{}, r.Publisher.PublishSpec(ctx, msg)
abbrev pub send : Calls → SpecUpdate → World → Run
send calls msg w =
    if calls.takes msg
    then record {
      world = record { scheduler = w.scheduler; bus = msg ∷ w.bus };
      patched = none;
      failed = false;
    }
    else stop w

abbrev pub with_call : Call → World → World
with_call call w = record { scheduler = perform call w.scheduler; bus = w.bus }

abbrev pub patch : Calls → Status → Status → World → Run
patch calls before after w =
    if probe_status_changed before after
    then (if calls.patches
        then record { world = w; patched = some after; failed = false }
        else stop w)
    else record { world = w; patched = none; failed = false }

abbrev pub schedule : Kind → NamespacedName → Object → SpecUpdate → Call
schedule kind name object spec =
    if object.suspend then unregister_call kind name else register_call spec

-- A live object, from PublishSpec on.
unfoldable pub reconcile_spec :
    Calls → Kind → NamespacedName → Object → Status → SpecUpdate → World → Run
reconcile_spec calls kind name object status spec w =
    if calls.takes spec
    then patch calls status (reconciled calls object status) (
        with_call (schedule kind name object spec)
          (record { scheduler = w.scheduler; bus = spec ∷ w.bus }))
    else stop w

module _ {P : Type 0} (source : Source P) (calls : Calls) (name : NamespacedName) where
  open source use {kind, object, status, build}

  abbrev pub reconcile_built : Option SpecUpdate → P → World → Run
  reconcile_built none p w = stop w
  reconcile_built (some spec) p w = reconcile_spec calls kind name (object p) (status p) spec w

  unfoldable pub reconcile : Get P → World → Run
  reconcile missing w =
      send calls (tombstone kind name.namespace name.name) (with_call (unregister_call kind name) w)
  reconcile unreadable w = stop w
  reconcile (gets p) w =
      if (object p).deleting
      then send calls (tombstone kind (object p).namespace (object p).name)
          (with_call (unregister_call kind name) w)
      else reconcile_built (build p) p w

abbrev pub dns_source : Source DnsProbe
dns_source = record {
  kind = kind_dns_probe;
  object = λ p. p.object;
  status = λ p. p.status;
  build = λ p. some (dns_probe_spec_update p);
}

abbrev pub tcp_source : Source TcpProbe
tcp_source = record {
  kind = kind_tcp_probe;
  object = λ p. p.object;
  status = λ p. p.status;
  build = λ p. some (tcp_probe_spec_update p);
}

-- `read` is the client's Get of a Secret.
module _ (read : NamespacedName → Option (Dict String Bytes)) where
  abbrev pub build_http : HttpProbe → Option SpecUpdate
  build_http p = elim (resolve_request_headers read p.object.namespace p.request) [
    | none ↦ none
    | some headers ↦ some (http_probe_spec_update p headers)
  ]

  abbrev pub http_source : Source HttpProbe
  http_source = record {
    kind = kind_http_probe;
    object = λ p. p.object;
    status = λ p. p.status;
    build = build_http;
  }
