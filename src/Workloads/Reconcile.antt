-- ===== src/Workloads/Reconcile.antt =====
-- Reconcile of controllers/k6test_controller.go and playwrighttest_controller.go. The two methods have
-- one body, over what differs between the kinds. `accepts` tells whether CreateOrUpdate ends without
-- an error; a CronJob that it does not find starts blank.
use synthetics_operator.Shared.{
  ℕ, String, Bool, true, false, Option, none, some, List, [], Bytes, ℤ, pos, ◌∷◌, string_eq,
  bytes_eq, nat_eq, if◌then◌else◌,
}
use synthetics_operator.Shared.Dict.{Dict, lookup, insert}
use synthetics_operator.Results.{
  Kind, kind_k6_test, kind_playwright_test, NamespacedName, name_eq, SpecUpdate,
}
use synthetics_operator.Api.{Object, Status, K6Test, PlaywrightTest}
use synthetics_operator.Specs.{k6_test_spec_update, playwright_test_spec_update, tombstone}
use synthetics_operator.Reconcilers.{
  Calls, Get, gets, missing, unreadable, reconciled, probe_status_changed,
}
use synthetics_operator.Workloads.{
  CronJob, Images, reconcile_k6_cron_job, reconcile_playwright_cron_job,
}

-- The CronJobs of the cluster, and the messages that the bus took, the last one first.
pub record TestCluster : Type 0 where
  pub cron_jobs : Dict NamespacedName CronJob
  pub bus : List SpecUpdate

pub record TestRun : Type 0 where
  pub cluster : TestCluster
  pub patched : Option Status
  pub failed : Bool

-- What differs between the kinds of test. `cron_job` is none where the interval gives no schedule.
pub record TestSource (T : Type 0) : Type 0 where
  pub kind : Kind
  pub object : T → Object
  pub status : T → Status
  pub spec : T → SpecUpdate
  pub cron_job : CronJob → T → Option CronJob

abbrev pub blank : CronJob
blank = record {
  schedule = [];
  suspend = false;
  concurrency_policy = "";
  ttl_seconds = pos 0;
  backoff_limit = 0;
  pod = record {
    restart_policy = "";
    volumes = [];
    init_containers = [];
    containers = [];
    affinity = none;
    run_as_non_root = false;
    seccomp_profile = "";
  };
}

abbrev pub or_blank : Option CronJob → CronJob
or_blank none = blank
or_blank (some cj) = cj

abbrev pub key_of_object : Object → NamespacedName
key_of_object o = record { namespace = o.namespace; name = o.name }

abbrev pub quit : TestCluster → TestRun
quit w = record { cluster = w; patched = none; failed = true }

abbrev pub with_message : SpecUpdate → TestCluster → TestCluster
with_message msg w = record w { bus = msg ∷ w.bus }

abbrev pub send_tombstone : Calls → SpecUpdate → TestCluster → TestRun
send_tombstone calls msg w =
    if calls.takes msg
    then record { cluster = with_message msg w; patched = none; failed = false }
    else quit w

-- reconcileCronJob, or none where it returns an error.
abbrev pub apply_cron_job :
    Bool → NamespacedName → Option CronJob → TestCluster → Option TestCluster
apply_cron_job accepts key none w = some w
apply_cron_job accepts key (some cj) w =
    if accepts then some (record w { cron_jobs = insert key cj w.cron_jobs }) else none

abbrev pub patch_test : Calls → Status → Status → TestCluster → TestRun
patch_test calls before after w =
    if probe_status_changed before after
    then (if calls.patches
        then record { cluster = w; patched = some after; failed = false }
        else quit w)
    else record { cluster = w; patched = none; failed = false }

abbrev pub after_cron_job : Calls → Status → Status → TestCluster → Option TestCluster → TestRun
after_cron_job calls before after w none = quit w
after_cron_job calls before after w (some next) = patch_test calls before after next

module _ {T : Type 0} (source : TestSource T) (calls : Calls) (accepts : Bool) where
  open source use {kind, object, status, spec, cron_job}

  abbrev pub reconcile_live : T → TestCluster → TestRun
  reconcile_live t w =
      if calls.takes (spec t)
      then after_cron_job calls (status t) (reconciled calls (object t) (status t))
          (with_message (spec t) w)
          (apply_cron_job accepts (key_of_object (object t))
            (cron_job (or_blank (lookup (key_of_object (object t)) w.cron_jobs)) t)
            (with_message (spec t) w))
      else quit w

  unfoldable pub reconcile_test : NamespacedName → Get T → TestCluster → TestRun
  reconcile_test name missing w = send_tombstone calls (tombstone kind name.namespace name.name) w
  reconcile_test name unreadable w = quit w
  reconcile_test name (gets t) w =
      if (object t).deleting
      then send_tombstone calls (tombstone kind (object t).namespace (object t).name) w
      else reconcile_live t w

module _ (bytes : String → Bytes) (seconds_of : ℤ → ℤ) (images : Images) (hash : Bytes → ℕ) where
  abbrev pub k6_source : TestSource K6Test
  k6_source = record {
    kind = kind_k6_test;
    object = λ t. t.object;
    status = λ t. t.status;
    spec = k6_test_spec_update;
    cron_job = reconcile_k6_cron_job bytes seconds_of images hash;
  }

  abbrev pub playwright_source : TestSource PlaywrightTest
  playwright_source = record {
    kind = kind_playwright_test;
    object = λ t. t.object;
    status = λ t. t.status;
    spec = playwright_test_spec_update;
    cron_job = reconcile_playwright_cron_job bytes seconds_of images hash;
  }
