-- ===== src/Receiver/Serving.antt =====
-- internal/heartbeat/receiver.go, servePing: what is published, and what each status says.
use mathlib.Core.Path.{subst}
use synthetics_operator.Shared.{
  some_inj, none_ne, refl, sym, ap, inl, inr, Bool, true, false, Option, none, some, List, arith,
  Bool-cases, Bytes, ◌≡◌, ◌∙◌, ◌↔◌, ◌⊎◌, if◌then◌else◌,
}
use synthetics_operator.Shared.Dict.{}
use synthetics_operator.Results.{NamespacedName, Time, HeartbeatPing, SpecUpdate, name_eq}
use synthetics_operator.Receiver.{
  not_found, method_not_allowed, still_loading, publish_failed, accepted, Receiver, Request,
  Response, Outcome, cold, serve_ping, serve_parsed, serve_known, lookup_token, parse_path, ping_of,
  is_ping_method,
}
use synthetics_operator.Receiver.Index.{run, current, lookup_token-current}

-- The request is a ping of this heartbeat: method, path and token are known.
pub record IsPing (r : Receiver) (now : Time) (req : Request) (ping : HeartbeatPing) : Type 0 where
  pub method_ok : is_ping_method req.method ≡ true
  pub token : Bytes
  pub outcome : Outcome
  pub owner : NamespacedName
  pub parses : parse_path req.path ≡ some (token, outcome)
  pub known : lookup_token r token ≡ some owner
  pub is_ping_of : ping_of req now owner outcome ≡ ping

-- The path parses, and no heartbeat has its token.
pub record IsUnknown (r : Receiver) (req : Request) : Type 0 where
  pub token : Bytes
  pub outcome : Outcome
  pub parses : parse_path req.path ≡ some (token, outcome)
  pub absent : lookup_token r token ≡ none

-- The ways a request ends, each with what it meets and what is answered.
data Branch (takes : HeartbeatPing → Bool) (r : Receiver) (now : Time) (req : Request)
    (answer : Option HeartbeatPing × Response) : Type 0 where
  bad_method :
      is_ping_method req.method ≡ false
      → answer ≡ (none, method_not_allowed)
      → Branch takes r now req answer
  bad_path :
      is_ping_method req.method ≡ true
      → parse_path req.path ≡ none
      → answer ≡ (none, not_found)
      → Branch takes r now req answer
  loading :
      is_ping_method req.method ≡ true
      → IsUnknown r req
      → r.warm ≡ false
      → answer ≡ (none, still_loading)
      → Branch takes r now req answer
  unknown :
      is_ping_method req.method ≡ true
      → IsUnknown r req
      → r.warm ≡ true
      → answer ≡ (none, not_found)
      → Branch takes r now req answer
  ping :
      (p : HeartbeatPing)
      → IsPing r now req p
      → answer ≡ (some p, if takes p then accepted else publish_failed)
      → Branch takes r now req answer

module _ (takes : HeartbeatPing → Bool) (r : Receiver) (now : Time) (req : Request) where
  serve_known-Branch :
      (token : Bytes) (outcome : Outcome) (owner : Option NamespacedName)
      → is_ping_method req.method ≡ true
      → parse_path req.path ≡ some (token, outcome)
      → lookup_token r token ≡ owner
      → Branch takes r now req (serve_known takes r now req owner outcome)
  serve_known-Branch token outcome none ok parses absent =
      let missing : IsUnknown r req = record {
        token = token;
        outcome = outcome;
        parses = parses;
        absent = absent;
      } in
      elim (Bool-cases r.warm) [
        | inl warm ↦ unknown ok missing warm (rw warm)
        | inr cold ↦ loading ok missing cold (rw cold)
      ]
  serve_known-Branch token outcome (some owner) ok parses known =
      ping (ping_of req now owner outcome)
        (record {
          method_ok = ok;
          token = token;
          outcome = outcome;
          owner = owner;
          parses = parses;
          known = known;
          is_ping_of = refl;
        })
        refl

  serve_parsed-Branch :
      (parsed : Option (Bytes × Outcome))
      → is_ping_method req.method ≡ true
      → parse_path req.path ≡ parsed
      → Branch takes r now req (serve_parsed takes r now req parsed)
  serve_parsed-Branch none ok fails = bad_path ok fails refl
  serve_parsed-Branch (some (token, outcome)) ok parses =
      serve_known-Branch token outcome (lookup_token r token) ok parses refl

  serve_ping-Branch : Branch takes r now req (serve_ping takes r now req)
  unfolding serve_ping
  serve_ping-Branch = elim (Bool-cases (is_ping_method req.method)) [
    | inl ok ↦ rw ok (serve_parsed-Branch (parse_path req.path) ok refl)
    | inr bad ↦ rw bad (bad_method bad refl)
  ]

  published-IsPing :
      (p : HeartbeatPing) (answer : Option HeartbeatPing × Response)
      → Branch takes r now req answer
      → answer.0 ≡ some p
      → IsPing r now req p
  published-IsPing p answer (bad_method _ e) h = absurd (none_ne (sym (ap (λ a. a.0) e) ∙ h))
  published-IsPing p answer (bad_path _ _ e) h = absurd (none_ne (sym (ap (λ a. a.0) e) ∙ h))
  published-IsPing p answer (loading _ _ _ e) h = absurd (none_ne (sym (ap (λ a. a.0) e) ∙ h))
  published-IsPing p answer (unknown _ _ _ e) h = absurd (none_ne (sym (ap (λ a. a.0) e) ∙ h))
  published-IsPing p answer (ping q is e) h =
      subst (IsPing r now req) (some_inj (sym (ap (λ a. a.0) e) ∙ h)) is

  -- A ping is published exactly where the method is right, the path parses and its token is known,
  -- and it is the ping of that heartbeat and that outcome.
  serve_ping-published_iff :
      (p : HeartbeatPing) → ((serve_ping takes r now req).0 ≡ some p) ↔ IsPing r now req p
  unfolding serve_ping
  serve_ping-published_iff p = (
    published-IsPing p (serve_ping takes r now req) serve_ping-Branch,
    λ is. rw (is.method_ok, is.parses, is.known) (ap some is.is_ping_of),
  )

  abbrev IsTaken : Option HeartbeatPing × Response → Type 0
  IsTaken answer = (p : HeartbeatPing) × (answer.0 ≡ some p) × (takes p ≡ true)

  ok-IsTaken :
      (answer : Option HeartbeatPing × Response)
      → Branch takes r now req answer
      → answer.1.status ≡ 200
      → IsTaken answer
  ok-IsTaken answer (bad_method _ e) h = ground (arith, ap (λ a. a.1.status) e, h)
  ok-IsTaken answer (bad_path _ _ e) h = ground (arith, ap (λ a. a.1.status) e, h)
  ok-IsTaken answer (loading _ _ _ e) h = ground (arith, ap (λ a. a.1.status) e, h)
  ok-IsTaken answer (unknown _ _ _ e) h = ground (arith, ap (λ a. a.1.status) e, h)
  ok-IsTaken answer (ping q is e) h =
      (q, ap (λ a. a.0) e, ground (arith, ap (λ a. a.1.status) e, h))

  taken-ok :
      (answer : Option HeartbeatPing × Response)
      → Branch takes r now req answer
      → IsTaken answer
      → answer.1.status ≡ 200
  taken-ok answer (bad_method _ e) (p, h, _) = absurd (none_ne (sym (ap (λ a. a.0) e) ∙ h))
  taken-ok answer (bad_path _ _ e) (p, h, _) = absurd (none_ne (sym (ap (λ a. a.0) e) ∙ h))
  taken-ok answer (loading _ _ _ e) (p, h, _) = absurd (none_ne (sym (ap (λ a. a.0) e) ∙ h))
  taken-ok answer (unknown _ _ _ e) (p, h, _) = absurd (none_ne (sym (ap (λ a. a.0) e) ∙ h))
  taken-ok answer (ping q is e) (p, h, takes_p) =
      let same : takes q ≡ takes p = ap takes (some_inj (sym (ap (λ a. a.0) e) ∙ h)) in
      ap (λ a. a.1.status) e ∙ rw (same, takes_p) refl

  -- The handler answers 200 exactly where it hands a ping to the bus and the bus takes it.
  serve_ping-ok_iff :
      ((serve_ping takes r now req).1.status ≡ 200) ↔ IsTaken (serve_ping takes r now req)
  serve_ping-ok_iff = (
    ok-IsTaken (serve_ping takes r now req) serve_ping-Branch,
    taken-ok (serve_ping takes r now req) serve_ping-Branch,
  )

  abbrev pub IsMissing : Type 0
  IsMissing =
      (is_ping_method req.method ≡ true)
      × ((parse_path req.path ≡ none) ⊎ (IsUnknown r req × (r.warm ≡ true)))

  not_found-IsMissing :
      (answer : Option HeartbeatPing × Response)
      → Branch takes r now req answer
      → answer.1.status ≡ 404
      → IsMissing
  not_found-IsMissing answer (bad_method _ e) h = ground (arith, ap (λ a. a.1.status) e, h)
  not_found-IsMissing answer (bad_path ok fails e) h = (ok, inl fails)
  not_found-IsMissing answer (loading _ _ _ e) h = ground (arith, ap (λ a. a.1.status) e, h)
  not_found-IsMissing answer (unknown ok missing warm e) h = (ok, inr (missing, warm))
  not_found-IsMissing answer (ping q is e) h = ground (arith, ap (λ a. a.1.status) e, h)

  missing-not_found : IsMissing → (serve_ping takes r now req).1.status ≡ 404
  unfolding serve_ping
  missing-not_found (ok, inl fails) = rw (ok, fails) refl
  missing-not_found (ok, inr (missing, warm)) = rw (ok, missing.parses, missing.absent, warm) refl

  -- The handler answers 404 exactly where the method is right and either the path does not parse, or
  -- the receiver is warm and the token is unknown.
  serve_ping-not_found_iff : ((serve_ping takes r now req).1.status ≡ 404) ↔ IsMissing
  serve_ping-not_found_iff =
      (not_found-IsMissing (serve_ping takes r now req) serve_ping-Branch, missing-not_found)

-- The ping that is published names a heartbeat whose latest spec carries the token of the path.
pub serve_ping-current :
    (takes : HeartbeatPing → Bool) (msgs : List SpecUpdate) (now : Time) (req : Request)
    (p : HeartbeatPing)
    → (serve_ping takes (run msgs cold) now req).0 ≡ some p
    → (token : Bytes) × (outcome : Outcome) × (parse_path req.path ≡ some (token, outcome))
      × (current (record { namespace = p.namespace; name = p.name }) msgs none ≡ some token)
unfolding ping_of
serve_ping-current takes msgs now req p h =
    let is = (serve_ping-published_iff takes (run msgs cold) now req p).0 h in
    (
      is.token,
      is.outcome,
      is.parses,
      subst
          (λ (q : HeartbeatPing).
            current (record { namespace = q.namespace; name = q.name }) msgs none ≡ some is.token)
          is.is_ping_of (lookup_token-current msgs is.token is.owner is.known),
    )
