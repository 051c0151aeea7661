-- ===== src/Depends/Tests.antt =====
-- Runs of the admission checks, and witnesses of their theorems.
use synthetics_operator.Shared.{
  String, refl, inl, inr, Bool, not, none, some, [], ◌≡◌, ◌↔◌, ◌∷◌, ◌==◌, string_eq, bytes_eq,
  nat_eq, if◌then◌else◌,
}
use synthetics_operator.Shared.Graph.{member, Reaches}
use synthetics_operator.Shared.Strings.{append_text}
use synthetics_operator.Results.{kind_http_probe, DependencyRef, ref_eq}
use synthetics_operator.Depends.{
  Reader, found, not_found, cycle, chain_too_deep, self_dependency, duplicate, dependency_not_found,
  bad_name, unsupported_kind, at_entry, at_list, is_dependency_kind, check_dep_exists,
  fetch_depends, visit, walk_list, walk_for_cycle, check_no_cycle, check_entry, check_entries,
  validate_depends,
}
use synthetics_operator.Depends.Steps.{children}
use synthetics_operator.Depends.Reports.{Justifies, check_no_cycle_complete}
use synthetics_operator.Depends.Entries.{Entries, validate_depends_iff, validate_depends-acyclic}

admission : Unit {0}
unfolding validate_depends check_entries check_entry check_dep_exists is_dependency_kind
    check_no_cycle walk_for_cycle walk_list visit fetch_depends member
admission = tt

abbrev http : String → DependencyRef
http name = record { kind = kind_http_probe; name = name }

-- A cluster: `web` depends on `api`, `api` on `db`, `db` on nothing, `loop` on itself.
abbrev cluster : Reader
cluster kind key =
    if key.name == "web"
    then found (http "api" ∷ [])
    else if key.name == "api"
    then found (http "db" ∷ [])
    else if key.name == "db"
    then found []
    else if key.name == "loop"
    then found (http "loop" ∷ [])
    else not_found

abbrev any_name : String → Bool
any_name name = not (name == "")

accepted :
    validate_depends cluster "ns" any_name (http "front") (http "web" ∷ http "loop" ∷ []) ≡ []
unfolding admission
accepted = refl

rejected :
    (validate_depends cluster "ns" any_name (http "db") (http "web" ∷ []) ≡ at_list cycle ∷ [])
    × (validate_depends cluster "ns" any_name (http "front") (
          http "front"
          ∷ http "web"
          ∷ http "web"
          ∷ http "gone"
          ∷ http ""
          ∷ record { kind = "Pod"; name = "x" }
          ∷ [])
        ≡ at_entry 0 self_dependency
          ∷ at_entry 2 duplicate
          ∷ at_entry 3 dependency_not_found
          ∷ at_entry 4 bad_name
          ∷ at_entry 5 unsupported_kind
          ∷ [])
unfolding admission
rejected = (refl, refl)

db_cycle : check_no_cycle cluster "ns" (http "db") (http "web" ∷ []) ≡ some cycle
unfolding admission
db_cycle = refl

-- Each object depends on one with a longer name.
abbrev growing : Reader
growing kind key = found (http (append_text key.name "x") ∷ [])

too_deep : check_no_cycle growing "ns" (http "db") (http "web" ∷ []) ≡ some chain_too_deep
unfolding admission append_text
too_deep = refl

check_no_cycle_complete_example :
    Justifies growing "ns" (http "db") 16 (http "web" ∷ []) chain_too_deep
check_no_cycle_complete_example =
    check_no_cycle_complete growing "ns" (http "db") (http "web" ∷ []) chain_too_deep too_deep

validate_depends_iff_example :
    (validate_depends cluster "ns" any_name (http "front") (http "web" ∷ []) ≡ []) ↔ (
      Entries cluster "ns" any_name (http "front") (http "web" ∷ []) []
      × (check_no_cycle cluster "ns" (http "front") (http "web" ∷ []) ≡ none))
validate_depends_iff_example =
    validate_depends_iff cluster "ns" any_name (http "front") (http "web" ∷ [])

validate_depends-acyclic_example : ¬ Reaches (children cluster "ns") (http "loop") (http "front")
validate_depends-acyclic_example =
    validate_depends-acyclic cluster "ns" any_name (http "front") (http "loop")
      (http "web" ∷ http "loop" ∷ []) accepted (inr (inl refl))
