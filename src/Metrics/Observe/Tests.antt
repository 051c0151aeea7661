-- ===== src/Metrics/Observe/Tests.antt =====
-- Scrapes, and a witness of the theorem on their attributes.
use synthetics_operator.Shared.{
  none_ne, some_inj, String, refl, Bool, true, false, none, some, [], pos, ◌≡◌, ◌∷◌, ◌++◌, ◌==◌,
  string_eq, bytes_eq, nat_eq, if◌then◌else◌,
}
use synthetics_operator.Shared.Dict.{Dict, lookup}
use mathlib.Core.Path.{subst}
use synthetics_operator.Shared.Graph.{member}
use synthetics_operator.Labels.{
  validate_metric_labels, check_label, is_prom_label_name, all_word, has_dunder, is_system_label,
  bad_format, reserved, collides,
}
use synthetics_operator.Float.Exact.{exact}
use synthetics_operator.Lifecycle.{evaluate}
use synthetics_operator.Results.{kind_k6_test, Time}
use synthetics_operator.Metrics.{CrKey, key_eq, Store, new_store, success_value, heartbeat_result}
use synthetics_operator.Metrics.Suppression.{
  find_unhealthy_dep, walk_deps, walk_list, visit, dependencies, is_failing,
}
use synthetics_operator.Metrics.Observe.{
  observe, test_gauge, test_result_info, test_duration, test_last_run, text, scrape, observe_all,
  observe_probe, observe_test, observe_heartbeat, observe_playwright, observe_cases, user_labels,
  text_attrs, sort_labels, place,
}
use synthetics_operator.Metrics.Observe.Keys.{keys, distinct}
use synthetics_operator.Metrics.Observe.Scrape.{AreAdmitted, AreDistinct, scrape-AreDistinct}

observing : Unit {0}
unfolding scrape observe_all observe_probe observe_test observe_heartbeat observe_playwright
    observe_cases user_labels text_attrs sort_labels place success_value lookup find_unhealthy_dep
    walk_deps walk_list visit dependencies is_failing member evaluate heartbeat_result
observing = tt

labelling : Unit {0}
unfolding validate_metric_labels check_label is_prom_label_name all_word has_dunder is_system_label
    member keys distinct lookup
labelling = tt

abbrev load : CrKey
load = record { kind = kind_k6_test; name = record { namespace = "ns"; name = "load" } }

abbrev labels : Dict String String
labels = ("team", "ops") ∷ ("env", "prod") ∷ []

abbrev labelled : Store exact
labelled = record (new_store exact) {
  tests =
      (
        load,
        record {
          kind = kind_k6_test;
          result = "ok";
          duration_milliseconds = pos 1200;
          last_run_timestamp = pos 90;
          playwright_tests = [];
        },
      )
      ∷ [];
  metric_labels = (load, labels) ∷ [];
}

abbrev now : Time
now = record { unix = pos 100; nsec = 0 }

-- The labels stand sorted, after the operator's.
scraped : scrape exact labelled now ≡ (
    let attrs =
      ("name", text "load")
      ∷ ("namespace", text "ns")
      ∷ ("kind", text "K6Test")
      ∷ ("env", text "prod")
      ∷ ("team", text "ops")
      ∷ [] in
    observe exact test_gauge (pos 1000) attrs
    ∷ observe exact test_result_info (pos 1000) (attrs ++ ("result", text "ok") ∷ [])
    ∷ observe exact test_duration (pos 1200) attrs
    ∷ observe exact test_last_run (pos 90) attrs
    ∷ [])
unfolding observing
scraped = refl

refused :
    validate_metric_labels
      (("name", "x") ∷ ("__a", "x") ∷ ("9", "x") ∷ ("", "x") ∷ ("team", "x") ∷ [])
    ≡ collides "name" ∷ reserved "__a" ∷ bad_format "9" ∷ bad_format "" ∷ []
unfolding labelling
refused = refl

if_found : {A : Type 0} (b : Bool) (x y : A) → (if b then some x else none) ≡ some y → x ≡ y
if_found true x y h = some_inj h
if_found false x y h = absurd (none_ne h)

admitted : AreAdmitted exact labelled
unfolding labelling
admitted key found h =
    subst (λ m. (validate_metric_labels m ≡ []) × (distinct (keys m) ≡ true))
      (if_found (load == key) labels found h) (refl, refl)

scrape-AreDistinct_example : AreDistinct exact (scrape exact labelled now)
scrape-AreDistinct_example = scrape-AreDistinct exact labelled now admitted
