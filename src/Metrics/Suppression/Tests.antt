-- ===== src/Metrics/Suppression/Tests.antt =====
-- Runs of the suppression walk, and witnesses of its theorems.
use mathlib.Core.Path.{subst}
use synthetics_operator.Shared.{
  ℕ, String, refl, sym, ap, inl, inr, false, none, some, [], arith, Bool-cases, str_beq_iff, In,
  pos, ◌<◌, ◌≡◌, ◌≢◌, ◌∷◌, ◌==◌, string_eq, bytes_eq, nat_eq, if◌then◌else◌,
}
use synthetics_operator.Shared.Dict.{lookup, insert, erase}
use synthetics_operator.Shared.Graph.{member}
use synthetics_operator.Float.Exact.{exact}
use synthetics_operator.Lifecycle.{evaluate}
use synthetics_operator.Results.{kind_http_probe, Time, NamespacedName, DependencyRef}
use synthetics_operator.Metrics.{
  key_beq_iff, crkey, Store, ProbeState, CrKey, key_eq, new_store, set_depends, upsert,
  heartbeat_result,
}
use synthetics_operator.Metrics.Suppression.{
  is_failing, dependencies, visit, walk_list, walk_deps, find_unhealthy_dep,
}
use synthetics_operator.Metrics.Suppression.Attribution.{IsFound, find_unhealthy_dep-IsFound}
use synthetics_operator.Metrics.Suppression.Ranks.{IsRanked}
use synthetics_operator.Metrics.Suppression.Deepest.{IsDeepest, find_unhealthy_dep-IsDeepest}

suppression : Unit {0}
unfolding find_unhealthy_dep walk_deps walk_list visit dependencies is_failing member lookup insert
    erase upsert set_depends heartbeat_result evaluate
suppression = tt

abbrev http : String → DependencyRef
http name = record { kind = kind_http_probe; name = name }

abbrev at : String → NamespacedName
at name = record { namespace = "ns"; name = name }

abbrev state : String → ProbeState exact
state result = record {
  kind = kind_http_probe;
  result = result;
  failed_assertion = "";
  duration_milliseconds = pos 0;
  last_run_timestamp = pos 0;
  http_status_code = pos 0;
  http_version = pos 0;
  url = "";
  method = "";
  tls_cert_expiry = pos 0;
  http_phase_dns_ms = pos 0;
  http_phase_connect_ms = pos 0;
  http_phase_tls_ms = pos 0;
  http_phase_processing_ms = pos 0;
  http_phase_transfer_ms = pos 0;
  assertion_results = [];
  dns_query_name = "";
  dns_resolver = "";
  dns_first_answer_value = "";
  dns_first_answer_type = "";
  dns_answer_count = pos 0;
  dns_authority_count = pos 0;
  dns_additional_count = pos 0;
  tcp_host = [];
  tcp_port = pos 0;
}

abbrev key : String → CrKey
key name = record { kind = kind_http_probe; name = at name }

-- `web` depends on `api`, and `api` on `db`; `db` answers with `result`, the others fail.
abbrev chain : String → Store exact
chain result = record (new_store exact) {
  probes =
      (key "web", state "dns_failed")
      ∷ (key "api", state "tls_failed")
      ∷ (key "db", state result)
      ∷ [];
  depends = (key "web", http "api" ∷ []) ∷ (key "api", http "db" ∷ []) ∷ [];
}

abbrev now : Time
now = record { unix = pos 0; nsec = 0 }

db_found :
    find_unhealthy_dep exact (chain "dns_failed") now kind_http_probe (at "web") ≡ some (http "db")
unfolding suppression
db_found = refl

api_found : find_unhealthy_dep exact (chain "ok") now kind_http_probe (at "web") ≡ some (http "api")
unfolding suppression
api_found = refl

nothing_found : find_unhealthy_dep exact (chain "ok") now kind_http_probe (at "api") ≡ none
unfolding suppression
nothing_found = refl

find_unhealthy_dep-IsFound_example :
    IsFound exact
      (chain "dns_failed")
      now
      "ns"
      (dependencies exact (chain "dns_failed") now "ns" (http "web"))
      (http "web" ∷ [])
      (http "db")
find_unhealthy_dep-IsFound_example =
    find_unhealthy_dep-IsFound exact (chain "dns_failed") now kind_http_probe (at "web") (http "db")
      db_found

abbrev rank : DependencyRef → ℕ
rank dep = if dep.name == "web" then 2 else if dep.name == "api" then 1 else 0

names_differ : ◌≢◌ {A = String} "api" "web"
names_differ = ground (arith, str_beq_iff "api" "web")

below_web :
    (result : String) (b : DependencyRef)
    → In b (dependencies exact (chain result) now "ns" (http "web"))
    → rank b < 2
unfolding suppression
below_web result b (inl same) = rw (← same) (omega arith)
below_web result b (inr no_more) = absurd no_more

below_api :
    (result : String) (b : DependencyRef)
    → In b (dependencies exact (chain result) now "ns" (http "api"))
    → rank b < 1
unfolding suppression
below_api result b (inl same) = rw (← same) (omega arith)
below_api result b (inr no_more) = absurd no_more

below_rest :
    (result : String) (a : DependencyRef)
    → (key "web" == crkey a.kind (at a.name)) ≡ false
    → (key "api" == crkey a.kind (at a.name)) ≡ false
    → dependencies exact (chain result) now "ns" a ≡ []
unfolding suppression
below_rest result a h k = ground arith

below_chain :
    (result : String) (a b : DependencyRef)
    → In b (dependencies exact (chain result) now "ns" a)
    → rank b < rank a
below_chain result a b i = elim (Bool-cases (key "web" == crkey a.kind (at a.name))) [
  | inl web ↦
      let e : http "web" ≡ a =
        ap (λ (k : CrKey). record { kind = k.kind; name = k.name.name })
          ((key_beq_iff (key "web") (crkey a.kind (at a.name))).0 web) in
      subst (λ x. rank b < rank x) e
        (below_web result b
          (subst (λ x. In b (dependencies exact (chain result) now "ns" x)) (sym e) i))
  | inr other ↦ elim (Bool-cases (key "api" == crkey a.kind (at a.name))) [
    | inl api ↦
        let e : http "api" ≡ a =
          ap (λ (k : CrKey). record { kind = k.kind; name = k.name.name })
            ((key_beq_iff (key "api") (crkey a.kind (at a.name))).0 api) in
        subst (λ x. rank b < rank x) e
          (below_api result b
            (subst (λ x. In b (dependencies exact (chain result) now "ns" x)) (sym e) i))
    | inr none_left ↦ absurd (rw (below_rest result a other none_left) at i)
  ]
]

chain-IsRanked : (result : String) → IsRanked exact (chain result) now "ns" rank
chain-IsRanked result = record { falls = below_chain result }

find_unhealthy_dep-IsDeepest_example : IsDeepest exact (chain "ok") now "ns" (http "api")
find_unhealthy_dep-IsDeepest_example =
    find_unhealthy_dep-IsDeepest exact (chain "ok") now kind_http_probe (at "web") rank
      (chain-IsRanked "ok") (http "api") (omega arith) api_found
