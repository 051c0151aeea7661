-- ===== src/Events.antt =====
-- internal/events/notifier.go: the Kubernetes event of a transition. `found` tells whether Get answers
-- the object.
pub mod Raised
mod Tests
use synthetics_operator.Shared.{
  String, Bool, true, false, List, [], ◌||◌, ◌∷◌, ◌++◌, ◌==◌, string_eq, bytes_eq, nat_eq,
  if◌then◌else◌,
}
use synthetics_operator.Shared.Dict.{}
use synthetics_operator.Shared.Strings.{append_text}
use synthetics_operator.Results.{
  Kind, NamespacedName, kind_http_probe, kind_dns_probe, kind_tcp_probe, kind_heartbeat,
  kind_k6_test, kind_playwright_test,
}
use synthetics_operator.Metrics.{
  CrKey, crkey, Result, result_ok, never_run, Effect, probe_transition, test_transition,
}

pub record Event : Type 0 where
  pub about : CrKey
  -- the type of the event: Warning, or else Normal
  pub is_warning : Bool
  pub reason : String
  pub message : String

abbrev success_message : Result → String
success_message prev =
    if prev == never_run then "run succeeded" else append_text "recovered from " prev

-- The switch of emit.
abbrev pub event_of : CrKey → String → String → Result → Result → Event
event_of key active failed prev next =
    if next == result_ok
    then record { about = key; is_warning = false; reason = active; message = success_message prev }
    else record {
      about = key;
      is_warning = true;
      reason = failed;
      message = append_text "run failed: " next;
    }

module _ (found : CrKey → Bool) where
  unfoldable pub emit : CrKey → String → String → Result → Result → List Event
  emit key active failed prev next =
      if found key then event_of key active failed prev next ∷ [] else []

  unfoldable pub on_probe_transition : NamespacedName → Kind → Result → Result → List Event
  on_probe_transition name kind prev next =
      if kind == kind_http_probe || kind == kind_dns_probe || kind == kind_tcp_probe
      then emit (crkey kind name) "ProbeActive" "ProbeFailed" prev next
      else if kind == kind_heartbeat
      then emit (crkey kind name) "HeartbeatActive" "HeartbeatFailed" prev next
      else []

  unfoldable pub on_test_transition : NamespacedName → Kind → Result → Result → List Event
  on_test_transition name kind prev next =
      if kind == kind_k6_test || kind == kind_playwright_test
      then emit (crkey kind name) "TestActive" "TestFailed" prev next
      else []

  -- The callbacks, of what the store does.
  abbrev react : Effect → List Event
  react (probe_transition name kind prev next) = on_probe_transition name kind prev next
  react (test_transition name kind prev next) = on_test_transition name kind prev next
  react _ = []

  unfoldable pub raised : List Effect → List Event
  raised [] = []
  raised (effect ∷ effects) = react effect ++ raised effects
