-- ===== src/Metrics/Suppression.antt =====
-- findUnhealthyDep, walkDepsLocked and isFailingLocked of internal/metrics/store.go: which failing
-- dependency a failure is attributed to. `now` is the store's clock, read under the lock.
pub mod Steps
pub mod Attribution
pub mod Ranks
pub mod Deepest
mod Tests
use synthetics_operator.Shared.{
  ℕ, zero, suc, String, Bool, false, not, Option, none, some, List, [], ◌&&◌, ◌||◌, ◌∷◌, ◌==◌,
  string_eq, bytes_eq, nat_eq, if◌then◌else◌,
}
use synthetics_operator.Shared.Dict.{lookup}
use synthetics_operator.Shared.Graph.{member}
use synthetics_operator.Float.{Float64}
use synthetics_operator.Lifecycle.{State, evaluate}
use synthetics_operator.Results.{
  Kind, kind_http_probe, kind_dns_probe, kind_tcp_probe, kind_k6_test, kind_playwright_test,
  kind_heartbeat, Time, NamespacedName, name_eq, DependencyRef, ref_eq,
}
use synthetics_operator.Metrics.{
  CrKey, key_eq, Store, ProbeState, TestState, crkey, result_ok, heartbeat_result,
}

abbrev pub max_depends_depth : ℕ
max_depends_depth = 16

module _ (F : Float64) where
  abbrev probe_failing : Option (ProbeState F) → Bool
  probe_failing none = false
  probe_failing (some state) = not (state.result == result_ok)

  abbrev test_failing : Option (TestState F) → Bool
  test_failing none = false
  test_failing (some state) = not (state.result == result_ok)

  -- A suspended heartbeat is not evaluated.
  abbrev heartbeat_failing : Time → Option (State F) → Bool
  heartbeat_failing now none = false
  heartbeat_failing now (some state) =
      not state.suspended && not (heartbeat_result (evaluate F state now) == result_ok)

  module _ (s : Store F) (now : Time) where
    unfoldable pub is_failing : Kind → NamespacedName → Bool
    is_failing kind name =
        let key = crkey kind name in
        if kind == kind_http_probe || kind == kind_dns_probe || kind == kind_tcp_probe
        then probe_failing (lookup key s.probes)
        else if kind == kind_k6_test || kind == kind_playwright_test
        then test_failing (lookup key s.tests)
        else if kind == kind_heartbeat
        then heartbeat_failing now (lookup key s.heartbeats)
        else false

    module _ (namespace : String) where
      -- All dependencies are in the origin's namespace, so a reference stands for its key.
      abbrev pub name_of : DependencyRef → NamespacedName
      name_of dep = record { namespace = namespace; name = dep.name }

      abbrev pub key_of : DependencyRef → CrKey
      key_of dep = crkey dep.kind (name_of dep)

      abbrev deps_or_nil : Option (List DependencyRef) → List DependencyRef
      deps_or_nil none = []
      deps_or_nil (some deps) = deps

      -- s.depends[key]
      unfoldable pub dependencies : DependencyRef → List DependencyRef
      dependencies dep = deps_or_nil (lookup (key_of dep) s.depends)

      -- The visited map is shared by all calls, so it is passed along; `Walk` answers the failing
      -- dependency, or none.
      abbrev pub Walk : Type 0
      Walk = List DependencyRef → List DependencyRef → Option DependencyRef × List DependencyRef

      -- if s.isFailingLocked(…) { return dep, true }
      abbrev own_failure : DependencyRef → Option DependencyRef
      own_failure dep = if is_failing dep.kind (name_of dep) then some dep else none

      abbrev pub deeper_first :
          DependencyRef
          → Option DependencyRef × List DependencyRef
          → Option DependencyRef × List DependencyRef
      deeper_first dep (some deeper, visited) = (some deeper, visited)
      deeper_first dep (none, visited) = (own_failure dep, visited)

      -- One round of the loop.
      unfoldable pub visit :
          Walk → DependencyRef → List DependencyRef → Option DependencyRef × List DependencyRef
      visit go dep visited =
          if member dep visited
          then (none, visited)
          else deeper_first dep (go (dependencies dep) (dep ∷ visited))

      unfoldable pub walk_list : Walk → Walk
      walk_list go [] visited = (none, visited)
      walk_list go (dep ∷ deps) visited =
          let (failing, after) = visit go dep visited in
          let rest = walk_list go deps after in
          elim failing [ some found ↦ (some found, after) | none ↦ rest ]

      -- The recursion on the depth counts the levels left below maxDependsDepth.
      unfoldable pub walk_deps : ℕ → Walk
      walk_deps zero deps visited = (none, visited)
      walk_deps (suc levels) deps visited = walk_list (walk_deps levels) deps visited

    unfoldable pub find_unhealthy_dep : Kind → NamespacedName → Option DependencyRef
    find_unhealthy_dep kind origin =
        let self : DependencyRef = record { kind = kind; name = origin.name } in
        (walk_deps origin.namespace max_depends_depth (dependencies origin.namespace self)
          (self ∷ [])).0
