-- ===== src/Events/Raised.antt =====
-- Which event a result of a probe raises.
use synthetics_operator.Shared.{
  refl, inl, inr, arith, Bool-cases, str_beq_iff, beq_ne, Bool, true, false, not, [], ◌≡◌, ◌≢◌, ◌↔◌,
  ◌∙◌, ◌∷◌, ◌==◌, string_eq, bytes_eq, nat_eq, if◌then◌else◌,
}
use synthetics_operator.Shared.Dict.{lookup}
use synthetics_operator.Float.{Float64}
use synthetics_operator.Results.{ProbeResult}
use synthetics_operator.Metrics.{
  CrKey, crkey, key_eq, Result, Store, probe_result, probe_transition, notify, upsert,
}
use synthetics_operator.Consumer.{on_probe_result, probe_state}
use synthetics_operator.Prober.Delivery.{is_probe}
use synthetics_operator.Events.{Event, event_of, emit, on_probe_transition, raised}

abbrev pub key_of_result : (F : Float64) → ProbeResult F → CrKey
key_of_result F msg = crkey msg.kind (record { namespace = msg.namespace; name = msg.name })

-- The event of a probe that has come to a result.
abbrev pub Reports : CrKey → Result → Event → Type 0
Reports key next event =
    (event.about ≡ key)
    × ((event.is_warning ≡ false) ↔ (next ≡ "ok"))
    × (next ≡ "ok" → event.reason ≡ "ProbeActive")
    × (next ≢ "ok" → event.reason ≡ "ProbeFailed")

event_of-Reports :
    (key : CrKey) (prev next : Result)
    → Reports key next (event_of key "ProbeActive" "ProbeFailed" prev next)
event_of-Reports key prev next = elim (Bool-cases (next == "ok")) [
  | inl ok ↦
      let same : next ≡ "ok" = (str_beq_iff next "ok").0 ok in
      rw ok (refl, (λ _. same, λ _. refl), λ _. refl, λ fails. absurd (fails same))
  | inr fails ↦
      let differs : next ≢ "ok" = λ same. cc (fails, (str_beq_iff next "ok").1 same) in
      rw fails (
        refl,
        (λ e. ground (arith, e), λ same. absurd (differs same)),
        λ same. absurd (differs same),
        λ _. refl,
      )
]

module _ (F : Float64) (found : CrKey → Bool) where
  raised_eq :
      (msg : ProbeResult F) (s : Store F)
      → s.on_probe_transition ≡ true
      → is_probe msg.kind ≡ true
      → found (key_of_result F msg) ≡ true
      → raised found (on_probe_result F msg s).1 ≡ (
          if probe_result F (lookup (key_of_result F msg) s.probes) == msg.result
          then []
          else event_of
              (key_of_result F msg)
              "ProbeActive"
              "ProbeFailed"
              (probe_result F (lookup (key_of_result F msg) s.probes))
              msg.result
            ∷ [])
  unfolding on_probe_result upsert probe_state notify raised on_probe_transition emit
  raised_eq msg s set probes there =
      rw set (of_test (probe_result F (lookup (key_of_result F msg) s.probes) == msg.result))
    where
      of_test :
          (same : Bool)
          → raised found (
              if not same
              then probe_transition
                  (record { namespace = msg.namespace; name = msg.name })
                  msg.kind
                  (probe_result F (lookup (key_of_result F msg) s.probes))
                  msg.result
                ∷ []
              else [])
            ≡ (if same
                then []
                else event_of
                    (key_of_result F msg)
                    "ProbeActive"
                    "ProbeFailed"
                    (probe_result F (lookup (key_of_result F msg) s.probes))
                    msg.result
                  ∷ [])
      of_test true = refl
      of_test false = rw (probes, there) refl

  -- With the callback set, a result of a probe whose object is found raises no event where it is the
  -- stored one, and one event where it is not. The event is about the probe; it is a warning unless
  -- the result is ok, and its reason is ProbeActive for ok and ProbeFailed for any other result.
  pub on_probe_result-raised :
      (msg : ProbeResult F) (s : Store F)
      → s.on_probe_transition ≡ true
      → is_probe msg.kind ≡ true
      → found (key_of_result F msg) ≡ true
      → (probe_result F (lookup (key_of_result F msg) s.probes) ≡ msg.result
          → raised found (on_probe_result F msg s).1 ≡ [])
        × (probe_result F (lookup (key_of_result F msg) s.probes) ≢ msg.result
            → (event : Event) × (raised found (on_probe_result F msg s).1 ≡ event ∷ [])
              × Reports (key_of_result F msg) msg.result event)
  on_probe_result-raised msg s set probes there =
      let prev : Result = probe_result F (lookup (key_of_result F msg) s.probes) in
      let made = raised_eq msg s set probes there in
      (
        λ same. made ∙ rw ((str_beq_iff prev msg.result).1 same) refl,
        λ differs. (
          event_of (key_of_result F msg) "ProbeActive" "ProbeFailed" prev msg.result,
          made ∙ rw (beq_ne prev msg.result differs) refl,
          event_of-Reports (key_of_result F msg) prev msg.result,
        ),
      )
