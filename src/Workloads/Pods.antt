-- ===== src/Workloads/Pods.antt =====
-- What every pod of a test has, whatever the test says, and what the last CronJob leaves in the next.
use synthetics_operator.Shared.{
  String, refl, ap, true, false, Option, none, some, List, [], map, Bytes, All, ℤ, ◌≡◌, ◌∷◌, ◌++◌,
  ◌==◌, string_eq, bytes_eq, nat_eq, if◌then◌else◌,
}
use synthetics_operator.Api.{EnvVar, RunnerSpec, K6Test, PlaywrightTest}
use synthetics_operator.Workloads.{
  Container, PodSpec, CronJob, Images, hardened, harden_pod_spec, with_runner, runner_affinity,
  k6_runner, mutate_k6_cron_job, mutate_playwright_cron_job,
}

-- A container that cannot gain privileges and has no capability.
abbrev IsConfined : Container → Type 0
IsConfined c = c.security ≡ some (record { allow_privilege_escalation = false; drop = "ALL" ∷ [] })

abbrev pub IsHardened : PodSpec → Type 0
IsHardened spec =
    (spec.run_as_non_root ≡ true)
    × (spec.seccomp_profile ≡ "RuntimeDefault")
    × All IsConfined spec.init_containers
    × All IsConfined spec.containers

map-hardened : (cs : List Container) → All IsConfined (map hardened cs)
map-hardened [] = tt
map-hardened (c ∷ cs) = (refl, map-hardened cs)

harden_pod_spec-IsHardened : (spec : PodSpec) → IsHardened (harden_pod_spec spec)
unfolding harden_pod_spec
harden_pod_spec-IsHardened spec =
    (refl, refl, map-hardened spec.init_containers, map-hardened spec.containers)

-- The value that a container sees: the last one of a name.
unfoldable pub seen : String → List EnvVar → Option Bytes
seen key [] = none
seen key (e ∷ es) = elim (seen key es) [
  | some value ↦ some value
  | none ↦ if e.name == key then some e.value else none
]

seen-append :
    (key : String) (user own : List EnvVar) (value : Bytes)
    → seen key own ≡ some value
    → seen key (user ++ own) ≡ some value
unfolding seen
seen-append key [] own value h = h
seen-append key (e ∷ es) own value h = rw (seen-append key es own value h) refl

seen-with_runner :
    (key : String) (runner : Option RunnerSpec) (own : List EnvVar) (c : Container) (value : Bytes)
    → seen key own ≡ some value
    → seen key (with_runner runner own c).env ≡ some value
seen-with_runner key none own c value h = h
seen-with_runner key (some runner) own c value h = seen-append key runner.env own value h

module _ (bytes : String → Bytes) (seconds_of : ℤ → ℤ) (images : Images) where
  -- Whatever a test of either kind says, and whatever CronJob was there, every container of its pods
  -- is confined, and the pods run as non-root under the default seccomp profile.
  pub mutate_cron_job-IsHardened :
      ((cj : CronJob) (t : K6Test) (schedule : Bytes)
        → IsHardened (mutate_k6_cron_job bytes seconds_of images cj t schedule).pod)
      × ((cj : CronJob) (t : PlaywrightTest) (schedule : Bytes)
          → IsHardened (mutate_playwright_cron_job bytes seconds_of images cj t schedule).pod)
  unfolding mutate_k6_cron_job mutate_playwright_cron_job
  mutate_cron_job-IsHardened =
      (λ cj t schedule. harden_pod_spec-IsHardened _, λ cj t schedule. harden_pod_spec-IsHardened _)

  -- The runner of a load test sees the name and the namespace of its own test, whatever variables
  -- the test sets.
  k6_runner-seen :
      (t : K6Test)
      → (seen "K6TEST_NAME" (k6_runner bytes seconds_of images t).env ≡ some (bytes t.object.name))
        × (seen "K6TEST_NAMESPACE" (k6_runner bytes seconds_of images t).env
            ≡ some (bytes t.object.namespace))
  unfolding k6_runner seen
  k6_runner-seen t = (
    seen-with_runner "K6TEST_NAME" t.runner _ _ (bytes t.object.name) refl,
    seen-with_runner "K6TEST_NAMESPACE" t.runner _ _ (bytes t.object.namespace) refl,
  )

  runner_affinity-again :
      (runner : Option RunnerSpec) (before : Option Bytes)
      → runner_affinity runner (runner_affinity runner before) ≡ runner_affinity runner before
  runner_affinity-again none before = refl
  runner_affinity-again (some runner) before = refl

  -- A CronJob that was made for a test is left as it is when it is made again.
  mutate_cron_job_idem :
      ((cj : CronJob) (t : K6Test) (schedule : Bytes)
        → mutate_k6_cron_job bytes seconds_of images
            (mutate_k6_cron_job bytes seconds_of images cj t schedule)
            t
            schedule
          ≡ mutate_k6_cron_job bytes seconds_of images cj t schedule)
      × ((cj : CronJob) (t : PlaywrightTest) (schedule : Bytes)
          → mutate_playwright_cron_job bytes seconds_of images
              (mutate_playwright_cron_job bytes seconds_of images cj t schedule)
              t
              schedule
            ≡ mutate_playwright_cron_job bytes seconds_of images cj t schedule)
  unfolding mutate_k6_cron_job mutate_playwright_cron_job harden_pod_spec
  mutate_cron_job_idem = (
    λ cj t schedule. rw (runner_affinity-again t.runner cj.pod.affinity) refl,
    λ cj t schedule. rw (runner_affinity-again t.runner cj.pod.affinity) refl,
  )

  -- When a load test loses its runner, the CronJob keeps the affinity that the runner had.
  pub mutate_k6_cron_job-keeps :
      (cj : CronJob) (t : K6Test) (runner : RunnerSpec) (schedule : Bytes)
      → t.runner ≡ some runner
      → (mutate_k6_cron_job bytes seconds_of images
          (mutate_k6_cron_job bytes seconds_of images cj t schedule)
          (record t { runner = none })
          schedule).pod.affinity
        ≡ runner.affinity
  unfolding mutate_k6_cron_job harden_pod_spec
  mutate_k6_cron_job-keeps cj t runner schedule has =
      ap (λ (found : Option RunnerSpec). runner_affinity found cj.pod.affinity) has
