-- ===== src/Depends.antt =====
-- api/v1alpha1/depends.go: admission checks on spec.depends. The Kubernetes API reader and the
-- DNS-1123 test of apimachinery are parameters.
mod Steps
pub mod Cycles
pub mod Reports
pub mod Entries
mod Tests
use synthetics_operator.Shared.{
  ℕ, zero, suc, String, Bool, not, Option, none, some, List, [], ◌+◌, ◌||◌, ◌∷◌, ◌==◌, string_eq,
  bytes_eq, nat_eq, if◌then◌else◌,
}
use synthetics_operator.Shared.Graph.{member}
use synthetics_operator.Results.{
  Kind, kind_http_probe, kind_dns_probe, kind_tcp_probe, kind_k6_test, kind_playwright_test,
  kind_heartbeat, NamespacedName, DependencyRef, ref_eq,
}

-- What a Get of one object of a kind answers: the object, of which only spec.depends is read here,
-- NotFound, or another error.
pub data Fetch : Type 0 where
  found : List DependencyRef → Fetch
  not_found : Fetch
  failed : Fetch

-- client.Reader, by kind and key.
abbrev pub Reader : Type 0
Reader = Kind → NamespacedName → Fetch

-- The messages of the field errors.
pub data Cause : Type 0 where
  unsupported_kind bad_name self_dependency duplicate : Cause
  dependency_not_found lookup_failed : Cause
  chain_too_deep cycle : Cause

-- A field error at entry `i` of the list, or at the list itself.
pub data FieldError : Type 0 where
  at_entry : ℕ → Cause → FieldError
  at_list : Cause → FieldError

abbrev pub max_depends_depth : ℕ
max_depends_depth = 16

unfoldable pub is_dependency_kind : Kind → Bool
is_dependency_kind kind =
    kind == kind_http_probe
    || kind == kind_dns_probe
    || kind == kind_tcp_probe
    || kind == kind_k6_test
    || kind == kind_playwright_test
    || kind == kind_heartbeat

abbrev existence : Fetch → Option Cause
existence (found _) = none
existence not_found = some dependency_not_found
existence failed = some lookup_failed

abbrev spec_depends : Fetch → Option (List DependencyRef)
spec_depends (found deps) = some deps
spec_depends _ = none

abbrev report : ℕ → Option Cause → List FieldError → List FieldError
report i none errs = errs
report i (some cause) errs = at_entry i cause ∷ errs

abbrev cycle_error : Option Cause → List FieldError
cycle_error none = []
cycle_error (some cause) = at_list cause ∷ []

abbrev pub object_key : String → String → NamespacedName
object_key namespace name = record { namespace = namespace; name = name }

module _ (reader : Reader) (namespace : String) where
  unfoldable pub check_dep_exists : DependencyRef → Option Cause
  check_dep_exists dep =
      if is_dependency_kind dep.kind
      then existence (reader dep.kind (object_key namespace dep.name))
      else some unsupported_kind

  unfoldable pub fetch_depends : DependencyRef → Option (List DependencyRef)
  fetch_depends dep =
      if is_dependency_kind dep.kind
      then spec_depends (reader dep.kind (object_key namespace dep.name))
      else none

  -- The recursion of walkForCycle on its depth counts the levels left below maxDependsDepth. The
  -- visited map is shared by all calls, so it is passed along.
  abbrev pub Walk : Type 0
  Walk = List DependencyRef → List DependencyRef → Option Cause × List DependencyRef

  -- One round of the loop.
  unfoldable pub visit :
      Walk → DependencyRef → DependencyRef → List DependencyRef → Option Cause × List DependencyRef
  visit go owner dep visited =
      if dep == owner
      then (some cycle, visited)
      else if member dep visited
      then (none, visited)
      else elim (fetch_depends dep) [
        | none ↦ (none, dep ∷ visited)
        | some sub ↦ go sub (dep ∷ visited)
      ]

  unfoldable pub walk_list : Walk → DependencyRef → Walk
  walk_list go owner [] visited = (none, visited)
  walk_list go owner (dep ∷ deps) visited =
      let (err, after) = visit go owner dep visited in
      let rest = walk_list go owner deps after in
      elim err [ some cause ↦ (some cause, after) | none ↦ rest ]

  unfoldable pub walk_for_cycle : ℕ → DependencyRef → Walk
  walk_for_cycle zero owner deps visited = (some chain_too_deep, visited)
  walk_for_cycle (suc levels) owner deps visited =
      walk_list (walk_for_cycle levels owner) owner deps visited

  unfoldable pub check_no_cycle : DependencyRef → List DependencyRef → Option Cause
  check_no_cycle owner deps = (walk_for_cycle max_depends_depth owner deps []).0

  module _ (is_dns1123_subdomain : String → Bool) where
    -- One round of the loop of ValidateDepends: the entry's error, and the seen set after it.
    unfoldable pub check_entry :
        DependencyRef → DependencyRef → List DependencyRef → Option Cause × List DependencyRef
    check_entry owner dep seen =
        if not (is_dependency_kind dep.kind)
        then (some unsupported_kind, seen)
        else if not (is_dns1123_subdomain dep.name)
        then (some bad_name, seen)
        else if dep == owner
        then (some self_dependency, seen)
        else if member dep seen
        then (some duplicate, seen)
        else (check_dep_exists dep, dep ∷ seen)

    unfoldable pub check_entries :
        DependencyRef → ℕ → List DependencyRef → List DependencyRef → List FieldError
    check_entries owner i [] seen = []
    check_entries owner i (dep ∷ deps) seen =
        let (err, after) = check_entry owner dep seen in
        report i err (check_entries owner (i + 1) deps after)

    unfoldable pub validate_depends : DependencyRef → List DependencyRef → List FieldError
    validate_depends owner [] = []
    validate_depends owner (dep ∷ deps) = elim (check_entries owner 0 (dep ∷ deps) []) [
      | [] ↦ cycle_error (check_no_cycle owner (dep ∷ deps))
      | err ∷ errs ↦ err ∷ errs
    ]
