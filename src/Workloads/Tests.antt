-- ===== src/Workloads/Tests.antt =====
-- The CronJobs of the example load test, and witnesses of the theorems.
use synthetics_operator.Shared.{
  ℕ, Bytes, true, refl, false, none, some, [], codes, ℤ, pos, negsuc, ◌/◌, ◌≡◌, ◌∷◌,
}
use synthetics_operator.Api.{RunnerSpec, K6Test}
use synthetics_operator.Webhooks.Examples.{k6_test}
use synthetics_operator.Workloads.{CronJob, Images, mutate_k6_cron_job}
use synthetics_operator.Workloads.Reconcile.{blank, TestCluster, reconcile_test}
use synthetics_operator.Workloads.Written.{k6_run, reconcile_test-written}
use synthetics_operator.Reconcilers.{Calls, probe_status_changed, same_conditions, same_condition}
use synthetics_operator.Results.{NamespacedName, name_eq}
use synthetics_operator.Shared.Dict.{lookup}
use synthetics_operator.Specs.{k6_test_spec_update}
use synthetics_operator.Cron.{valid_schedule, interval_to_cron, cron_of}
use synthetics_operator.Workloads.{reconcile_k6_cron_job}
use synthetics_operator.Workloads.Pods.{
  IsHardened, mutate_cron_job-IsHardened, mutate_k6_cron_job-keeps,
}

abbrev images : Images
images = record {
  nats_url = "nats://bus:4222";
  test_sidecar_image = "sidecar:1";
  runner_image = "runner:1";
}

abbrev whole_seconds : ℤ → ℤ
whole_seconds (pos n) = pos (n / 1000000000)
whole_seconds (negsuc n) = pos 0

-- A runner that wants to be another test, on other nodes.
abbrev runner : RunnerSpec
runner = record {
  env = record { name = "K6TEST_NAME"; value = codes "other" } ∷ [];
  env_from = [];
  resources = [];
  affinity = some (codes "gpu");
}

abbrev test : K6Test
test = record k6_test { runner = some runner }

mutate_k6_cron_job-keeps_example :
    (mutate_k6_cron_job codes whole_seconds images
      (mutate_k6_cron_job codes whole_seconds images blank test (codes "0 */1 * * *"))
      (record test { runner = none })
      (codes "0 */1 * * *")).pod.affinity
    ≡ some (codes "gpu")
mutate_k6_cron_job-keeps_example =
    mutate_k6_cron_job-keeps codes whole_seconds images blank test runner (codes "0 */1 * * *") refl

mutate_cron_job-IsHardened_example :
    IsHardened (mutate_k6_cron_job codes whole_seconds images blank test (codes "0 */1 * * *")).pod
mutate_cron_job-IsHardened_example =
    (mutate_cron_job-IsHardened codes whole_seconds images).0 blank test (codes "0 */1 * * *")

abbrev calls : Calls
calls = record {
  takes = λ msg. true;
  patches = true;
  set_status_condition = λ conditions condition. condition ∷ [];
  now = record { unix = pos 43200; nsec = 0 };
}

-- A test of every ninety seconds.
abbrev minutely : K6Test
minutely = record test { interval = pos 90000000000 }

abbrev hash : Bytes → ℕ
hash bytes = 7

abbrev load : NamespacedName
load = record { namespace = "ns"; name = "load" }

abbrev empty : TestCluster
empty = record { cron_jobs = []; bus = [] }

scheduled_minutely :
    valid_schedule hash (codes "ns") (codes "load") (pos 90000000000) ≡ some (codes "* * * * *")
unfolding valid_schedule interval_to_cron cron_of
scheduled_minutely = refl

minutely_succeeds :
    (k6_run codes whole_seconds images hash calls true load minutely empty).failed ≡ false
unfolding reconcile_test reconcile_k6_cron_job valid_schedule interval_to_cron cron_of
    probe_status_changed same_conditions same_condition
minutely_succeeds = refl

reconcile_test-written_example :
    (cj : CronJob) × (lookup load
        (k6_run codes whole_seconds images hash calls true load minutely empty).cluster.cron_jobs
      ≡ some cj)
    × (cj.schedule ≡ codes "* * * * *")
    × (cj.suspend ≡ false)
    × IsHardened cj.pod
    × ((k6_run codes whole_seconds images hash calls true load minutely empty).cluster.bus
        ≡ k6_test_spec_update minutely ∷ [])
reconcile_test-written_example =
    reconcile_test-written codes whole_seconds images hash calls true load minutely empty
      (codes "* * * * *") refl scheduled_minutely minutely_succeeds
