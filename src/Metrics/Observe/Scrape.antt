-- ===== src/Metrics/Observe/Scrape.antt =====
-- A whole scrape: with admitted user labels, no two attributes of an observation have one key.
use synthetics_operator.Shared.{
  String, refl, inl, inr, Bool, true, false, Option, none, some, List, [], All, In, All-append, ◌≡◌,
  ◌∷◌, ◌++◌, ◌==◌, string_eq, bytes_eq, nat_eq, if◌then◌else◌,
}
use synthetics_operator.Shared.Dict.{Dict, lookup}
use synthetics_operator.Labels.{validate_metric_labels, validate_metric_labels_iff}
use synthetics_operator.Float.{Float64}
use synthetics_operator.Lifecycle.{State, evaluate}
use synthetics_operator.Results.{
  Kind, kind_heartbeat, kind_playwright_test, kind_http_probe, kind_dns_probe, kind_tcp_probe, Time,
  NamespacedName,
}
use synthetics_operator.Metrics.{
  heartbeat_result, CrKey, key_eq, crkey, ProbeState, TestState, Store,
}
use synthetics_operator.Metrics.Observe.{
  find_unhealthy_dep, heartbeat_suppressed, probe_suppressed, test_suppressed, kind_or_http, Attrs,
  Observation, text, bytes, int, base_attrs, target_attrs, observe_probe, observe_test,
  observe_heartbeat, observe_all, scrape, user_labels, sort_labels, labels_or_nil,
}
use synthetics_operator.Metrics.Observe.UserLabels.{
  keys-text_attrs, distinct-sort_labels, none_system-sort_labels, admitted-none_system,
}
use synthetics_operator.Metrics.Observe.Keys.{keys, distinct, none_system, keys-append}
use synthetics_operator.Metrics.Observe.Collisions.{
  IsClean-distinct, AreClean, no_more, more, AreClean-append, base, prefixes, suppressed-AreClean,
  assertions-AreClean, results-IsClean, result-IsClean, by_kind-AreClean, playwright-AreClean,
  IsClean-plain, AreClean-if,
}

-- What holds of both branches holds of the conditional.
if_either : {A : Type 0} (P : A → Type 0) (b : Bool) (x y : A) → P x → P y → P (if b then x else y)
if_either P true x y hx hy = hx
if_either P false x y hx hy = hy

target-prefix :
    (F : Float64) (name : NamespacedName) (kind k : Kind) (state : ProbeState F)
    → In (keys (base_attrs name kind ++ target_attrs F k state)) prefixes
unfolding keys target_attrs
target-prefix F name kind k state =
    let P : Attrs → Type 0 = λ t. In (keys (base_attrs name kind ++ t)) prefixes in
    let plain : P [] = inl refl in
    let Q : Attrs → Attrs → Type 0 = λ r q. P (q ++ r) in
    if_either P (k == kind_http_probe) _ _
      (if_either P (state.url == "") [] (("url", text state.url) ∷ []) plain (inr (inl refl)))
      (if_either P (k == kind_tcp_probe) _ _
        (if_either P (state.tcp_host == []) []
          (("host", bytes state.tcp_host) ∷ ("port", int state.tcp_port) ∷ []) plain
          (inr (inr (inl refl))))
        (if_either P (k == kind_dns_probe) _ []
          (if_either (Q _) (state.dns_query_name == "") []
            (("query", text state.dns_query_name) ∷ [])
            (if_either (λ r. Q r []) (state.dns_resolver == "") []
              (("resolver", text state.dns_resolver) ∷ []) plain (inr (inr (inr (inr (inl refl))))))
            (if_either (λ r. Q r (("query", text state.dns_query_name) ∷ []))
              (state.dns_resolver == "") [] (("resolver", text state.dns_resolver) ∷ [])
              (inr (inr (inr (inl refl)))) (inr (inr (inr (inr (inr (inl refl))))))))
          plain))

-- The labels of every object were admitted, and a map has each key once.
abbrev pub AreAdmitted : (F : Float64) → Store F → Type 0
AreAdmitted F s =
    (key : CrKey) (labels : Dict String String)
    → lookup key s.metric_labels ≡ some labels
    → (validate_metric_labels labels ≡ []) × (distinct (keys labels) ≡ true)

-- No two attributes of an observation have the same key.
abbrev pub AreDistinct : (F : Float64) → List (Observation F) → Type 0
AreDistinct F = All (λ o. distinct (keys o.attrs) ≡ true)

module _ (F : Float64) (s : Store F) (now : Time) (admitted : AreAdmitted F s) where
  labels-Admitted :
      (found : Option (Dict String String)) (key : CrKey)
      → lookup key s.metric_labels ≡ found
      → (none_system (keys (labels_or_nil found)) ≡ true)
        × (distinct (keys (labels_or_nil found)) ≡ true)
  unfolding keys none_system distinct
  labels-Admitted none key h = (refl, refl)
  labels-Admitted (some labels) key h =
      let (valid, unique) = admitted key labels h in
      (admitted-none_system labels ((validate_metric_labels_iff labels).0 valid), unique)

  user_labels-Admitted :
      (kind : Kind) (name : NamespacedName)
      → (none_system (keys (user_labels F s now kind name)) ≡ true)
        × (distinct (keys (user_labels F s now kind name)) ≡ true)
  unfolding user_labels
  user_labels-Admitted kind name =
      let found = lookup (crkey kind name) s.metric_labels in
      let (outside, unique) = labels-Admitted found (crkey kind name) refl in
      (
        rw
            (
              keys-text_attrs (sort_labels (labels_or_nil found)),
              none_system-sort_labels (labels_or_nil found),
            )
            outside,
        rw
            (
              keys-text_attrs (sort_labels (labels_or_nil found)),
              distinct-sort_labels (labels_or_nil found),
            )
            unique,
      )

  clean-AreDistinct :
      (kind : Kind) (name : NamespacedName) (os : List (Observation F))
      → AreClean F (keys (user_labels F s now kind name)) os
      → AreDistinct F os
  clean-AreDistinct kind name [] no_more = tt
  clean-AreDistinct kind name (o ∷ os) (more c cs) =
      let (outside, unique) = user_labels-Admitted kind name in
      (IsClean-distinct _ o.attrs outside unique c, clean-AreDistinct kind name os cs)

  probe-AreClean :
      (name : NamespacedName) (state : ProbeState F)
      → AreClean F
          (keys (user_labels F s now (kind_or_http state.kind) name))
          (observe_probe F s now name state)
  unfolding observe_probe
  probe-AreClean name state =
      let kind = kind_or_http state.kind in
      let user = user_labels F s now kind name in
      let target = base_attrs name kind ++ target_attrs F kind state in
      let attrs = target ++ user in
      let pre = keys target in
      let fits = target-prefix F name kind kind state in
      let split = keys-append target user in
      (AreClean-append
        (AreClean-append
          (more (IsClean-plain F (keys user) attrs pre fits split) (
            more (results-IsClean F (keys user) attrs pre fits split _ _) (
              more (IsClean-plain F (keys user) attrs pre fits split) (
                more (IsClean-plain F (keys user) attrs pre fits split) (
                  suppressed-AreClean F (keys user) attrs pre fits split probe_suppressed
                    state.result (find_unhealthy_dep F s now kind name))))))
          (assertions-AreClean F (keys user) attrs pre fits split state.assertion_results))
        (by_kind-AreClean F (keys user) attrs pre fits split kind state))

  test-AreClean :
      (name : NamespacedName) (state : TestState F)
      → AreClean F (keys (user_labels F s now state.kind name)) (observe_test F s now name state)
  unfolding observe_test keys
  test-AreClean name state =
      let user = user_labels F s now state.kind name in
      let attrs = base_attrs name state.kind ++ user in
      let split = keys-append (base_attrs name state.kind) user in
      (AreClean-append
        (more (IsClean-plain F (keys user) attrs base (inl refl) split) (
          more (result-IsClean F (keys user) attrs base (inl refl) split _) (
            more (IsClean-plain F (keys user) attrs base (inl refl) split) (
              more (IsClean-plain F (keys user) attrs base (inl refl) split) (
                suppressed-AreClean F (keys user) attrs base (inl refl) split test_suppressed
                  state.result (find_unhealthy_dep F s now state.kind name))))))
        (AreClean-if (state.kind == kind_playwright_test)
          (playwright-AreClean F (keys user) attrs base (inl refl) split state) no_more))

  heartbeat-AreClean :
      (name : NamespacedName) (state : State F)
      → AreClean F
          (keys (user_labels F s now kind_heartbeat name))
          (observe_heartbeat F s now name state)
  unfolding observe_heartbeat keys
  heartbeat-AreClean name state =
      let user = user_labels F s now kind_heartbeat name in
      let attrs = base_attrs name kind_heartbeat ++ user in
      let split = keys-append (base_attrs name kind_heartbeat) user in
      let plain = IsClean-plain F (keys user) attrs base (inl refl) split in
      (AreClean-if state.suspended no_more (
        more plain (
          more (result-IsClean F (keys user) attrs base (inl refl) split _) (
            more plain (
              more plain (
                more plain (
                  more plain (
                    suppressed-AreClean F (keys user) attrs base (inl refl) split
                      heartbeat_suppressed (heartbeat_result (evaluate F state now))
                      (find_unhealthy_dep F s now kind_heartbeat name)))))))))

  all-AreDistinct :
      {A : Type 0} (f : NamespacedName → A → List (Observation F))
      (h : (name : NamespacedName) (state : A) → AreDistinct F (f name state)) (m : Dict CrKey A)
      → AreDistinct F (observe_all F s now f m)
  unfolding observe_all
  all-AreDistinct f h [] = tt
  all-AreDistinct f h ((key, state) ∷ rest) =
      All-append (λ o. distinct (keys o.attrs) ≡ true) (f key.name state) _ (h key.name state)
        (all-AreDistinct f h rest)

  -- Where the labels of every object were admitted, and no map has a key twice, no observation of a
  -- scrape has two attributes of one key: a user's label never replaces a label of the operator.
  pub scrape-AreDistinct : AreDistinct F (scrape F s now)
  unfolding scrape
  scrape-AreDistinct =
      All-append (λ o. distinct (keys o.attrs) ≡ true)
        (observe_all F s now (observe_probe F s now) s.probes ++ _) _
        (All-append (λ o. distinct (keys o.attrs) ≡ true)
          (observe_all F s now (observe_probe F s now) s.probes) _
          (all-AreDistinct (observe_probe F s now)
            (λ name state.
              clean-AreDistinct (kind_or_http state.kind) name (observe_probe F s now name state)
                (probe-AreClean name state))
            s.probes)
          (all-AreDistinct (observe_test F s now)
            (λ name state.
              clean-AreDistinct state.kind name (observe_test F s now name state)
                (test-AreClean name state))
            s.tests))
        (all-AreDistinct (observe_heartbeat F s now)
          (λ name state.
            clean-AreDistinct kind_heartbeat name (observe_heartbeat F s now name state)
              (heartbeat-AreClean name state))
          s.heartbeats)
