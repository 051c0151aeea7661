-- ===== src/Lib.antt =====
-- The synthetics operator: Kubernetes objects declare probes, tests and heartbeats; a controller
-- broadcasts a spec update for each; probers and test runners publish results, and the heartbeat
-- receiver publishes the pings that jobs send; the metrics process folds all messages into one
-- store, from which gauges are scraped and events are raised.
--
-- Which file models what (paths from the repository's root):
--   Results      internal/results/message.go: the messages between the processes.
--   Labels       api/v1alpha1/metriclabels.go: ValidateMetricLabels, isSystemLabel.
--   Assertions   api/v1alpha1/assertion_expr.go and internal/probes/assertions.go: the expressions,
--                their admission (ValidateAssertionExpr) and evaluation (evalAssertions).
--   Lifecycle    internal/heartbeat/lifecycle/lifecycle.go: ApplySpec, RecordPing, Evaluate, Deadline,
--                WriteInterval, ShouldPersistPing.
--   Depends      api/v1alpha1/depends.go: the admission checks of spec.depends (ValidateDepends,
--                checkDepExists, checkNoCycle, walkForCycle, fetchDepends).
--   Metrics      internal/metrics/store.go and heartbeat.go: the store (Upsert, UpsertTest, Delete,
--                SetDepends, SetMetricLabels, RecordTestResult, RecordPlaywrightResult,
--                SetHeartbeatSpec, RecordHeartbeatPing); Metrics/Suppression: findUnhealthyDep,
--                walkDepsLocked, isFailingLocked; Metrics/Observe: the scrape (registerCallback,
--                observeProbe, observeTest, observeHeartbeat, targetAttrs, userLabelsLocked).
--   Consumer     internal/metricsconsumer/consumer.go: onSpec, onHeartbeatPing, onProbeResult,
--                onTestResult; `run` handles a sequence of messages, as the subscriptions deliver it.
--   Receiver     internal/heartbeat/receiver.go and token.go: onSpec, lookup, servePing, parsePath,
--                readOutput, AcceptableToken, ValidToken.
--   Specs        controllers/specs.go and http_headers.go: the message that each object is broadcast
--                as, and its request's headers; Specs/Reseed: what the consumers hold after it.
--   PingWriter   controllers/heartbeat_pings.go: onPing, shouldWrite, forget, throttleFor.
--   Scheduler    internal/probes/scheduler.go: ProbeOffset, ProbeOffsetForKind, initialDelay, Register,
--                Unregister, Start. A running goroutine is the channel that stops it.
--   Api          api/v1alpha1/*_types.go: the specs and statuses of the six kinds.
--   Webhooks     api/v1alpha1/*_webhook.go: Default, the validation of each kind and ValidateUpdate.
--   Cron         controllers/cron.go: intervalToCron, and the interval checks of
--                api/v1alpha1/k6test_webhook.go; Cron/Schedule reads an expression back.
--   Executors    internal/probes/executor.go, tcp_executor.go, dns_executor.go, http_executor.go: one
--                child module per kind of probe.
--   Prober       internal/prober/worker.go: which executor a job gets and what is published.
--   Reconcilers  controllers/http_probe_controller.go, dns_probe_controller.go,
--                tcp_probe_controller.go and status.go: Reconcile and the status it writes.
--   Heartbeats   controllers/heartbeat_controller.go and NewToken of internal/heartbeat/token.go: the
--                provisioning of a token, its Secret and Reconcile.
--   Resync       controllers/spec_resync.go: what one resync publishes.
--   Workloads    controllers/k6test_controller.go, playwrighttest_controller.go and pod_security.go:
--                the CronJob of a test; Workloads/Reconcile: Reconcile of the two kinds of test.
--   Events       internal/events/notifier.go: the event that a transition raises.
--   Sidecar      images/test-sidecar/main.go: the wait for a result file (waitForFile) and run.
--   Float        Go's float64 as a parameter with its order laws, and an exact instance.
--   Shared       maps, graphs, strings, integers and lists.
--
-- How the code is read. A map is an association list (Shared/Dict). A struct is a record with the
-- source's fields, and a method on a shared struct takes the state and gives it back; its mutex
-- makes it one step. What leaves the process (a callback, a counter, a published message) is a value
-- of the result. A string that the code walks byte by byte is a list of bytes, every other one is a
-- string. float64 is the parameter `Float64`; theorems that need an order take `FloatLaws`. The API
-- server is the parameter `Reader` of Depends, which answers not-found, an error, or the object's
-- dependencies; for the ping writer it is what Get answers and whether a patch is taken, and a
-- status that it keeps has its times in whole seconds. The bus of the receiver is a predicate on
-- pings. What the network answers is a parameter, and so is what the code asks of other packages:
-- Go's net, net/http, net/url, crypto/x509 and random source, miekg/dns, SetStatusCondition and
-- CreateOrUpdate. A duration is a number of nanoseconds, and the minutes that the code takes of one
-- as a float are its whole ones (Cron says for which durations).
--
-- Bounds. The two walks over a dependency graph recurse on the levels left below maxDependsDepth
-- (16), as the code counts its depth, so they need no fuel beside it. Theorems about all of a graph
-- hold whatever its size; those that need the depth to suffice say so by a rank. The
-- sidecar's wait takes fuel: 1202 polls of half a second outlast its ten minutes.
--
-- Not modelled: the NATS client and the calls of it (internal/natsbus), the certificates of the
-- webhook server (internal/webhookcerts), process start-up (cmd, and the other images), the loop of
-- the scheduler that publishes a job on each tick, the generated deep copies, and the pages that
-- net/http adds (path cleaning, error headers).
pub mod Shared
pub mod Float
pub mod Results
pub mod Labels
pub mod Lifecycle
pub mod Depends
pub mod Api
pub mod Metrics
pub mod Consumer
pub mod Receiver
pub mod Assertions
pub mod Scheduler
pub mod Cron
pub mod Specs
pub mod PingWriter
pub mod Webhooks
pub mod Executors
pub mod Prober
pub mod Reconcilers
pub mod Heartbeats
pub mod Resync
pub mod Workloads
pub mod Events
pub mod Sidecar
