-- ===== src/Resync/Recovery.antt =====
-- A receiver that restarts learns every token from one resync.
use synthetics_operator.Shared.{
  some_inj, String, refl, sym, ap, inl, inr, Bool, true, false, Option, none, some, [], Bytes,
  beq_refl, All, In, All-append, ◌≡◌, ◌∙◌, ◌≢◌, ◌⊎◌, if◌then◌else◌,
}
use synthetics_operator.Specs.Reseed.{name_of}
use mathlib.Core.Path.{subst}
use synthetics_operator.Shared.Dict.{Dict}
use synthetics_operator.Results.{NamespacedName, name_eq, SpecUpdate}
use synthetics_operator.Api.{HttpProbe, Heartbeat}
use synthetics_operator.Specs.{
  http_probe_spec_update, dns_probe_spec_update, tcp_probe_spec_update, k6_test_spec_update,
  playwright_test_spec_update, heartbeat_spec_update, resolve_request_headers,
}
use synthetics_operator.Receiver.{cold, lookup_token, live_token}
use synthetics_operator.Receiver.Index.{run}
use synthetics_operator.Receiver.Served.{lookup_token_iff}
use synthetics_operator.Resync.{
  Lists, each, items, beat_message, resync_heartbeat, resync_http_probe, resync_dns_probe,
  resync_tcp_probe, resync_k6_test, resync_playwright_test, resync, publish_each,
}
use synthetics_operator.Resync.Messages.{
  publish_each-All, In-publish_each, Puts, All-each, All-map, In-right, In-left, In-each,
  current-agreed, Serves, other_kind, unless_deleting-Puts, live_token-beat, beat_token,
}

module _ (read : NamespacedName → Option (Dict String Bytes)) (reader : Heartbeat → Option Bytes)
    (lists : Lists) (h : Heartbeat) (token : Bytes) where
  -- No other heartbeat that is listed has the name or the token.
  abbrev pub IsAlone : Type 0
  IsAlone =
      (other : Heartbeat)
      → In other (items lists.heartbeats)
      → (name_of other ≡ name_of h) ⊎ (reader other ≡ some token)
      → other ≡ h

  beat-Serves :
      (other : Heartbeat) (t : Bytes)
      → token ≢ []
      → reader h ≡ some token
      → IsAlone
      → In other (items lists.heartbeats)
      → reader other ≡ some t
      → Serves (name_of h) token (heartbeat_spec_update other t)
  unfolding heartbeat_spec_update
  beat-Serves other t some_token own alone i has = (
    λ kind e.
        sym (
          ap name_of
            (alone other i (inr (has ∙ ap some (beat_token (name_of h) token other t e))))),
    λ about.
        let same : other ≡ h =
          alone other i (inl ((name_eq.beq_iff (name_of other) (name_of h)).0 about)) in
        let tokens : t ≡ token = some_inj (sym has ∙ ap reader same ∙ own) in
        subst (λ (u : Bytes). live_token (heartbeat_spec_update other u) ≡ some token) (sym tokens)
          (live_token-beat (name_of h) token other token some_token),
  )

  beat_message-Puts :
      (other : Heartbeat)
      → token ≢ []
      → reader h ≡ some token
      → IsAlone
      → In other (items lists.heartbeats)
      → Puts (Serves (name_of h) token) (resync_heartbeat reader other)
  beat_message-Puts other some_token own alone i =
      unless_deleting-Puts (name_of h) token other.object _ (of_token (reader other) refl)
    where
      of_token :
          (found : Option Bytes)
          → reader other ≡ found
          → Puts (Serves (name_of h) token) (beat_message other found)
      of_token none e = tt
      of_token (some t) e = beat-Serves other t some_token own alone i e

  http-Puts : (p : HttpProbe) → Puts (Serves (name_of h) token) (resync_http_probe read p)
  unfolding http_probe_spec_update
  http-Puts p =
      unless_deleting-Puts (name_of h) token p.object _
        (of_headers (resolve_request_headers read p.object.namespace p.request))
    where
      of_headers :
          (found : Option (Dict String Bytes))
          → Puts
              (Serves (name_of h) token)
              (elim found [ none ↦ none | some headers ↦ some (http_probe_spec_update p headers) ])
      of_headers none = tt
      of_headers (some headers) =
          other_kind (name_of h) token (http_probe_spec_update p headers) refl

  resync-Serves :
      token ≢ []
      → reader h ≡ some token
      → IsAlone
      → All (Serves (name_of h) token) (resync read (some reader) lists)
  unfolding resync dns_probe_spec_update tcp_probe_spec_update k6_test_spec_update
      playwright_test_spec_update
  resync-Serves some_token own alone =
      let P = Serves (name_of h) token in
      let kept = unless_deleting-Puts (name_of h) token in
      let other = other_kind (name_of h) token in
      All-append P _ _ (All-each P _ (items lists.http_probes) (λ p _. http-Puts p)) (
        All-append P _ _
          (All-each P resync_dns_probe (items lists.dns_probes)
            (λ p _. kept p.object _ (other (dns_probe_spec_update p) refl)))
          (All-append P _ _
            (All-each P resync_tcp_probe (items lists.tcp_probes)
              (λ p _. kept p.object _ (other (tcp_probe_spec_update p) refl)))
            (All-append P _ _
              (All-each P resync_k6_test (items lists.k6_tests)
                (λ t _. kept t.object _ (other (k6_test_spec_update t) refl)))
              (All-append P _ _
                (All-each P _ (items lists.heartbeats)
                  (λ b i. beat_message-Puts b some_token own alone i))
                (All-each P resync_playwright_test (items lists.playwright_tests)
                  (λ t _. kept t.object _ (other (playwright_test_spec_update t) refl)))))))

  beat_sent :
      h.object.deleting ≡ false
      → reader h ≡ some token
      → resync_heartbeat reader h ≡ some (heartbeat_spec_update h token)
  beat_sent live own =
      ap (λ (deleting : Bool). if deleting then none else beat_message h (reader h)) live
      ∙ ap (beat_message h) own

  -- A receiver that starts with an empty index serves a heartbeat after what the publisher takes of
  -- one resync, where the heartbeat is listed, is not being deleted, and has a token that is read and is
  -- not empty, the publisher takes its message, whatever it takes of the others, and no other listed
  -- heartbeat has its name or its token.
  pub resync-served :
      (takes : SpecUpdate → Bool)
      → takes (heartbeat_spec_update h token) ≡ true
      → token ≢ []
      → reader h ≡ some token
      → In h (items lists.heartbeats)
      → h.object.deleting ≡ false
      → IsAlone
      → lookup_token (run (publish_each takes (resync read (some reader) lists)) cold) token
        ≡ some (name_of h)
  unfolding resync heartbeat_spec_update
  resync-served takes taken some_token own listed live alone =
      let handed = resync read (some reader) lists in
      let msgs = publish_each takes handed in
      let all =
        publish_each-All (Serves (name_of h) token) takes handed
          (resync-Serves some_token own alone) in
      (lookup_token_iff token (name_of h) msgs (All-map (λ _ s. s.0) msgs all)).1 (
        current-agreed (name_of h) token msgs none (All-map (λ _ s. s.1) msgs all) (
          inr (
            heartbeat_spec_update h token,
            In-publish_each takes handed (heartbeat_spec_update h token) taken (
                In-right (each (resync_http_probe read) (items lists.http_probes)) _ _ (
                  In-right (each resync_dns_probe (items lists.dns_probes)) _ _ (
                    In-right (each resync_tcp_probe (items lists.tcp_probes)) _ _ (
                      In-right (each resync_k6_test (items lists.k6_tests)) _ _ (
                        In-left (each (resync_heartbeat reader) (items lists.heartbeats)) _ _ (
                          In-each (resync_heartbeat reader) (items lists.heartbeats) h _ listed
                            (beat_sent live own))))))),
            beq_refl (name_of h),
          )))
