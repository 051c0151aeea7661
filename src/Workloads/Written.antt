-- ===== src/Workloads/Written.antt =====
-- What a reconciliation of a test leaves in the cluster.
use synthetics_operator.Shared.{
  ℕ, String, refl, ap, Bool, true, false, none, some, arith, Bytes, ℤ, ◌≡◌, ◌∷◌, ◌∙◌, if◌then◌else◌,
}
use synthetics_operator.Shared.Dict.{lookup, insert, lookup-insert_self}
use synthetics_operator.Results.{NamespacedName, name_eq}
use synthetics_operator.Api.{Status, K6Test}
use synthetics_operator.Specs.{k6_test_spec_update}
use synthetics_operator.Cron.{valid_schedule}
use synthetics_operator.Reconcilers.{Calls, gets, probe_status_changed, reconciled}
use synthetics_operator.Workloads.{
  CronJob, Images, mutate_k6_cron_job, reconcile_k6_cron_job, scheduled,
}
use synthetics_operator.Workloads.Pods.{IsHardened, mutate_cron_job-IsHardened}
use synthetics_operator.Workloads.Reconcile.{
  TestCluster, TestRun, TestSource, quit, with_message, patch_test, after_cron_job, apply_cron_job,
  or_blank, key_of_object, reconcile_test, k6_source,
}

-- Whether the status is patched, the cluster is the same.
patch_test-cluster :
    (calls : Calls) (before after : Status) (w : TestCluster)
    → (patch_test calls before after w).cluster ≡ w
patch_test-cluster calls before after w = of_tests (probe_status_changed before after) calls.patches
  where
    of_tests :
        (changed patches : Bool)
        → (if changed
            then (if patches
                then record { cluster = w; patched = some after; failed = false }
                else quit w)
            else record { cluster = w; patched = none; failed = false }).cluster
          ≡ w
    of_tests true true = refl
    of_tests true false = refl
    of_tests false patches = refl

-- A reconciliation that takes the message and writes the CronJob leaves both.
written :
    (calls : Calls) (before after : Status) (w next : TestCluster) (key : NamespacedName)
    (cj : CronJob)
    → (takes accepts : Bool)
    → (if takes
        then after_cron_job calls before after next (apply_cron_job accepts key (some cj) next)
        else quit w).failed
      ≡ false
    → (if takes
        then after_cron_job calls before after next (apply_cron_job accepts key (some cj) next)
        else quit w).cluster
      ≡ record next { cron_jobs = insert key cj next.cron_jobs }
written calls before after w next key cj true true ok = patch_test-cluster calls before after _
written calls before after w next key cj true false ok = ground (arith, ok)
written calls before after w next key cj false accepts ok = ground (arith, ok)

module _ {T : Type 0} (source : TestSource T) (calls : Calls) (accepts : Bool) where
  open source use {object, spec, cron_job}

  -- What is left where the object is live and the interval gives a CronJob.
  reconcile_test-cluster :
      (name : NamespacedName) (t : T) (w : TestCluster) (cj : CronJob)
      → (object t).deleting ≡ false
      → cron_job (or_blank (lookup (key_of_object (object t)) w.cron_jobs)) t ≡ some cj
      → (reconcile_test source calls accepts name (gets t) w).failed ≡ false
      → (reconcile_test source calls accepts name (gets t) w).cluster ≡ record {
        cron_jobs = insert (key_of_object (object t)) cj w.cron_jobs;
        bus = spec t ∷ w.bus;
      }
  unfolding reconcile_test
  reconcile_test-cluster name t w cj alive made =
      rw (alive, made)
        (written calls (source.status t) (reconciled calls (object t) (source.status t)) w
          (with_message (spec t) w) (key_of_object (object t)) cj (calls.takes (spec t)) accepts)

module _ (bytes : String → Bytes) (seconds_of : ℤ → ℤ) (images : Images) (hash : Bytes → ℕ) where
  abbrev pub k6_run : Calls → Bool → NamespacedName → K6Test → TestCluster → TestRun
  k6_run calls accepts name t w =
      reconcile_test (k6_source bytes seconds_of images hash) calls accepts name (gets t) w

  -- Where a load test is not being deleted and its interval gives a schedule, a reconciliation without
  -- an error leaves a CronJob under its name, with that schedule, the test's suspension and confined
  -- pods, and the last message on the bus is the test's.
  pub reconcile_test-written :
      (calls : Calls) (accepts : Bool) (name : NamespacedName) (t : K6Test) (w : TestCluster)
      → (schedule : Bytes) → t.object.deleting ≡ false
      → valid_schedule hash (bytes t.object.namespace) (bytes t.object.name) t.interval
        ≡ some schedule
      → (k6_run calls accepts name t w).failed ≡ false
      → (cj : CronJob) × (lookup
            (key_of_object t.object)
            (k6_run calls accepts name t w).cluster.cron_jobs
          ≡ some cj)
        × (cj.schedule ≡ schedule)
        × (cj.suspend ≡ t.object.suspend)
        × IsHardened cj.pod
        × ((k6_run calls accepts name t w).cluster.bus ≡ k6_test_spec_update t ∷ w.bus)
  unfolding reconcile_k6_cron_job mutate_k6_cron_job
  reconcile_test-written calls accepts name t w schedule alive valid ok =
      let old : CronJob = or_blank (lookup (key_of_object t.object) w.cron_jobs) in
      let cj : CronJob = mutate_k6_cron_job bytes seconds_of images old t schedule in
      let left =
        reconcile_test-cluster (k6_source bytes seconds_of images hash) calls accepts name t w cj
          alive
          (ap
            (scheduled bytes seconds_of images hash
              (mutate_k6_cron_job bytes seconds_of images old t))
            valid)
          ok in
      (
        cj,
        ap (λ (c : TestCluster). lookup (key_of_object t.object) c.cron_jobs) left
            ∙ lookup-insert_self (key_of_object t.object) cj w.cron_jobs,
        refl,
        refl,
        (mutate_cron_job-IsHardened bytes seconds_of images).0 old t schedule,
        ap (λ (c : TestCluster). c.bus) left,
      )
