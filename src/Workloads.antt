-- ===== src/Workloads.antt =====
-- controllers/k6test_controller.go, playwrighttest_controller.go and pod_security.go: the CronJob of a
-- test. Of a CronJob, the fields that the code writes are read; SetControllerReference and the server's
-- part of CreateOrUpdate are left out. `seconds_of` is int32(d.Seconds()).
pub mod Pods
pub mod Reconcile
pub mod Written
mod Tests
use synthetics_operator.Shared.{
  ℕ, String, Bool, true, false, Option, none, some, List, [], map, Bytes, ℤ, ◌∷◌, ◌++◌, ◌==◌,
  string_eq, bytes_eq, nat_eq, if◌then◌else◌,
}
use synthetics_operator.Results.{SpecUpdate}
use synthetics_operator.Api.{
  Object, Status, EnvVar, RunnerSpec, K6Test, PlaywrightTest, ConfigMapKeyRef,
}
use synthetics_operator.Shared.Strings.{append_text}
use synthetics_operator.Cron.{valid_schedule}

pub record SecurityContext : Type 0 where
  pub allow_privilege_escalation : Bool
  pub drop : List String

pub record Container : Type 0 where
  pub name : String
  pub image : String
  pub command : List String
  pub args : List String
  pub restarts_always : Bool
  pub env : List EnvVar
  pub env_from : List Bytes
  pub resources : Bytes
  -- the name of a volume, and where it is mounted
  pub mounts : List (String × String)
  pub security : Option SecurityContext

-- An empty directory, or a key of a ConfigMap under a file's name.
pub data Volume : Type 0 where
  empty_dir : String → Volume
  config_map : String → ConfigMapKeyRef → String → Volume

pub record PodSpec : Type 0 where
  pub restart_policy : String
  pub volumes : List Volume
  pub init_containers : List Container
  pub containers : List Container
  pub affinity : Option Bytes
  pub run_as_non_root : Bool
  pub seccomp_profile : String

pub record CronJob : Type 0 where
  pub schedule : Bytes
  pub suspend : Bool
  pub concurrency_policy : String
  pub ttl_seconds : ℤ
  pub backoff_limit : ℕ
  pub pod : PodSpec

-- The images and the bus of a reconciler.
pub record Images : Type 0 where
  pub nats_url : String
  pub test_sidecar_image : String
  pub runner_image : String

abbrev pub hardened : Container → Container
hardened c = record c {
  security = some (record { allow_privilege_escalation = false; drop = "ALL" ∷ [] });
}

unfoldable pub harden_pod_spec : PodSpec → PodSpec
harden_pod_spec spec = record spec {
  run_as_non_root = true;
  seccomp_profile = "RuntimeDefault";
  init_containers = map hardened spec.init_containers;
  containers = map hardened spec.containers;
}

abbrev plain_container : Container
plain_container = record {
  name = "";
  image = "";
  command = [];
  args = [];
  restarts_always = false;
  env = [];
  env_from = [];
  resources = [];
  mounts = [];
  security = none;
}

abbrev sidecar_args : String → List String
sidecar_args nats_url = if nats_url == "" then [] else append_text "--nats-url=" nats_url ∷ []

abbrev pub sidecar : Images → Container
sidecar images = record plain_container {
  name = "test-sidecar";
  image = images.test_sidecar_image;
  args = sidecar_args images.nats_url;
  restarts_always = true;
  mounts = ("results", "/results") ∷ [];
}

abbrev installer : Images → Container
installer images = record plain_container {
  name = "runner-installer";
  image = images.runner_image;
  command = "/ko-app/k6-runner" ∷ "--install" ∷ [];
  mounts = ("runner-bin", "/runner-bin") ∷ [];
}

-- append(test.Spec.Runner.Env, env...), and what else the runner gives.
abbrev pub with_runner : Option RunnerSpec → List EnvVar → Container → Container
with_runner none own c = record c { env = own }
with_runner (some runner) own c = record c {
  env = runner.env ++ own;
  env_from = runner.env_from;
  resources = runner.resources;
}

-- The two variables that name the test.
abbrev own_env : String → String → Object → (String → Bytes) → List EnvVar
own_env name_key namespace_key o bytes =
    record { name = name_key; value = bytes o.name }
    ∷ record { name = namespace_key; value = bytes o.namespace }
    ∷ []

abbrev pub runner_affinity : Option RunnerSpec → Option Bytes → Option Bytes
runner_affinity none before = before
runner_affinity (some runner) before = runner.affinity

-- `bytes` are the bytes of a name.
module _ (bytes : String → Bytes) (seconds_of : ℤ → ℤ) (images : Images) where
  unfoldable pub k6_runner : K6Test → Container
  k6_runner t =
      with_runner t.runner (own_env "K6TEST_NAME" "K6TEST_NAMESPACE" t.object bytes)
        (record plain_container {
          name = "runner";
          image = append_text "grafana/k6:" t.k6_version;
          command = "/runner-bin/k6-runner" ∷ [];
          args =
              append_text "--name=" t.object.name
              ∷ append_text "--namespace=" t.object.namespace
              ∷ [];
          mounts =
              ("runner-bin", "/runner-bin") ∷ ("results", "/results") ∷ ("script", "/scripts") ∷ [];
        })

  unfoldable pub playwright_runner : PlaywrightTest → Container
  playwright_runner t =
      with_runner t.runner
        (own_env "PLAYWRIGHT_TEST_NAME" "PLAYWRIGHT_TEST_NAMESPACE" t.object bytes)
        (record plain_container {
          name = "runner";
          image = images.runner_image;
          mounts = ("results", "/results") ∷ ("script", "/scripts") ∷ [];
        })

  -- mutateCronJob: what it writes, with the affinity that was there where no runner is given.
  abbrev cron_job :
      CronJob
      → Bytes
      → Bool
      → ℤ
      → Option RunnerSpec
      → List Volume
      → List Container
      → List Container
      → CronJob
  cron_job cj schedule suspend ttl runner volumes init containers = record {
    schedule = schedule;
    suspend = suspend;
    concurrency_policy = "Forbid";
    ttl_seconds = seconds_of ttl;
    backoff_limit = 0;
    pod = harden_pod_spec (record {
      restart_policy = "Never";
      volumes = volumes;
      init_containers = init;
      containers = containers;
      affinity = runner_affinity runner cj.pod.affinity;
      run_as_non_root = cj.pod.run_as_non_root;
      seccomp_profile = cj.pod.seccomp_profile;
    });
  }

  unfoldable pub mutate_k6_cron_job : CronJob → K6Test → Bytes → CronJob
  mutate_k6_cron_job cj t schedule =
      cron_job cj schedule t.object.suspend t.ttl_after_finished t.runner
        (empty_dir "runner-bin" ∷ empty_dir "results" ∷ config_map "script" t.script "test.js" ∷ [])
        (installer images ∷ sidecar images ∷ []) (k6_runner t ∷ [])

  unfoldable pub mutate_playwright_cron_job : CronJob → PlaywrightTest → Bytes → CronJob
  mutate_playwright_cron_job cj t schedule =
      cron_job cj schedule t.object.suspend t.ttl_after_finished t.runner
        (empty_dir "results" ∷ config_map "script" t.script "test.spec.js" ∷ [])
        (sidecar images ∷ []) (playwright_runner t ∷ [])

  -- reconcileCronJob: the CronJob that is written, or none without a schedule.
  module _ (hash : Bytes → ℕ) where
    abbrev pub scheduled : (Bytes → CronJob) → Option Bytes → Option CronJob
    scheduled mutate none = none
    scheduled mutate (some schedule) = some (mutate schedule)

    unfoldable pub reconcile_k6_cron_job : CronJob → K6Test → Option CronJob
    reconcile_k6_cron_job cj t =
        scheduled (mutate_k6_cron_job cj t)
          (valid_schedule hash (bytes t.object.namespace) (bytes t.object.name) t.interval)

    unfoldable pub reconcile_playwright_cron_job : CronJob → PlaywrightTest → Option CronJob
    reconcile_playwright_cron_job cj t =
        scheduled (mutate_playwright_cron_job cj t)
          (valid_schedule hash (bytes t.object.namespace) (bytes t.object.name) t.interval)
