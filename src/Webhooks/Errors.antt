-- ===== src/Webhooks/Errors.antt =====
-- When the parts of a validation find nothing.
use synthetics_operator.Shared.{
  append-nil_iff, ℕ, refl, map, bytes_beq_iff, Bool, true, false, Option, none, some, List, [], ◌⊎◌,
  arith, Bytes, All, ℤ, pos, ◌+◌, ◌≡◌, ◌↔◌, ◌∷◌, ◌==◌, ◌≤ℤ◌, ◌<ℤ◌, ◌<◌, ◌≤◌, ◌%◌, ◌/◌, pos_part,
  string_eq, bytes_eq, nat_eq,
}
use synthetics_operator.Float.{Float64}
use synthetics_operator.Assertions.{validate_assertion_expr}
use synthetics_operator.Results.{Kind, Assertion, TlsConfig, DependencyRef}
use synthetics_operator.Depends.{check_no_cycle, validate_depends}
use synthetics_operator.Depends.Entries.{Entries, validate_depends_iff}
use synthetics_operator.Labels.{IsUserLabel, validate_metric_labels, validate_metric_labels_iff}
use synthetics_operator.Cron.{validate_probe_interval, validate_minute_interval, minute, minutes}
use synthetics_operator.Api.{Object, HeaderFromSource}
use synthetics_operator.Webhooks.{
  all_errors, validate_probe_interval, SpecError, Checks, check, check_headers, check_assertions,
  check_times, check_tls, check_object, depends_error, label_error,
}

pub all_errors-nil_iff :
    (parts : List (List SpecError)) → (all_errors parts ≡ []) ↔ All (λ errs. errs ≡ []) parts
unfolding all_errors
all_errors-nil_iff [] = (λ _. tt, λ _. refl)
all_errors-nil_iff (errs ∷ rest) =
    ground (arith, append-nil_iff errs (all_errors rest), all_errors-nil_iff rest)

pub check_iff : (bad : Bool) (e : SpecError) → (check bad e ≡ []) ↔ (bad ≡ false)
check_iff bad e = ground arith

-- A header with a name, and with a Secret and a key.
abbrev pub IsComplete : HeaderFromSource → Type 0
IsComplete h =
    ((h.name == "") ≡ false)
    × ((h.secret_key_ref.name == "") ≡ false)
    × ((h.secret_key_ref.key == "") ≡ false)

pub check_headers_iff :
    (i : ℕ) (hs : List HeaderFromSource) → (check_headers i hs ≡ []) ↔ All IsComplete hs
unfolding check_headers
check_headers_iff i [] = (λ _. tt, λ _. refl)
check_headers_iff i (h ∷ hs) = ground (arith, check_headers_iff (i + 1) hs)

module _ (F : Float64) (checks : Checks) (vars : List Bytes) where
  -- A name, and an expression that the language has for the variables.
  abbrev pub IsWritten : Assertion → Type 0
  IsWritten a = ((a.name == "") ≡ false) × (validate_assertion_expr F a.expr vars ≡ true)

  pub check_assertions_iff :
      (i : ℕ) (rest : List Assertion)
      → (check_assertions F checks vars i rest ≡ []) ↔ All IsWritten rest
  unfolding check_assertions
  check_assertions_iff i [] = (λ _. tt, λ _. refl)
  check_assertions_iff i (a ∷ rest) = ground (arith, check_assertions_iff (i + 1) rest)

-- Positive, and below a minute, or of whole minutes that divide an hour, or that are whole hours that
-- divide a day.
abbrev pub IsInterval : ℤ → Type 0
IsInterval d =
    (pos 0 <ℤ d)
    × ((d <ℤ pos minute)
        ⊎ ((pos_part (minutes d) < 60) × (60 % pos_part (minutes d) ≡ 0))
        ⊎ ((60 ≤ pos_part (minutes d))
            × (pos_part (minutes d) % 60 ≡ 0)
            × (pos_part (minutes d) / 60 ≤ 24)
            × (24 % (pos_part (minutes d) / 60) ≡ 0)))

validate_minute_interval_iff :
    (total : ℕ)
    → (validate_minute_interval total ≡ none) ↔ (
        ((total < 60) × (60 % total ≡ 0))
        ⊎ ((60 ≤ total) × (total % 60 ≡ 0) × (total / 60 ≤ 24) × (24 % (total / 60) ≡ 0)))
unfolding validate_minute_interval
validate_minute_interval_iff total = ground arith

validate_probe_interval_iff : (d : ℤ) → (validate_probe_interval d ≡ none) ↔ IsInterval d
unfolding validate_probe_interval
validate_probe_interval_iff d = ground (arith, validate_minute_interval_iff (pos_part (minutes d)))

-- An interval that is admitted, and a positive timeout that is not above it.
abbrev pub AreTimes : ℤ → ℤ → Type 0
AreTimes interval timeout = IsInterval interval × (pos 0 <ℤ timeout) × (timeout ≤ℤ interval)

pub check_times_iff :
    (interval timeout : ℤ) → (check_times interval timeout ≡ []) ↔ AreTimes interval timeout
unfolding check_times
check_times_iff interval timeout = ground (arith, validate_probe_interval_iff interval)

map-nil_iff {ℓ m} :
    {A : Type ℓ} {B : Type m} → (f : A → B) (xs : List A) → (map f xs ≡ []) ↔ (xs ≡ [])
map-nil_iff f [] = (λ _. refl, λ _. refl)
map-nil_iff f (x ∷ xs) = (λ h. cc, λ h. cc)

module _ (F : Float64) (checks : Checks) where
  open checks use {reader, is_dns1123_subdomain, has_certificates}

  -- No CA, an empty one, or one that has certificates.
  abbrev pub IsTls : Option TlsConfig → Type 0
  IsTls none = Unit
  IsTls (some tls) = (tls.ca_cert ≡ []) ⊎ (has_certificates tls.ca_cert ≡ true)

  pub check_tls_iff : (tls : Option TlsConfig) → (check_tls F checks tls ≡ []) ↔ IsTls tls
  check_tls_iff none = (λ _. tt, λ _. refl)
  check_tls_iff (some tls) = ground (arith, bytes_beq_iff tls.ca_cert [])

  -- Dependencies that are entries of their own and lead to no cycle that the walk finds, and labels
  -- that a user may set.
  pub record IsSound (kind : Kind) (o : Object) : Type 0 where
    pub entries :
        Entries reader o.namespace is_dns1123_subdomain
          (record { kind = kind; name = o.name })
          o.depends
          []
    pub acyclic :
        check_no_cycle reader o.namespace (record { kind = kind; name = o.name }) o.depends ≡ none
    pub labels : All (λ label. IsUserLabel label.0) o.metric_labels

  pub check_object_iff :
      (kind : Kind) (o : Object) → (check_object F checks kind o ≡ []) ↔ IsSound kind o
  unfolding check_object
  check_object_iff kind o =
      let owner : DependencyRef = record { kind = kind; name = o.name } in
      let depends = validate_depends reader o.namespace is_dns1123_subdomain owner o.depends in
      let labels = validate_metric_labels o.metric_labels in
      let both = append-nil_iff (map depends_error depends) (map label_error labels) in
      let first = map-nil_iff depends_error depends in
      let second = map-nil_iff label_error labels in
      let sound = validate_depends_iff reader o.namespace is_dns1123_subdomain owner o.depends in
      let clean = validate_metric_labels_iff o.metric_labels in
      (
        λ h.
            let depended = sound.0 (first.0 (both.0 h).0) in
            record {
              entries = depended.0;
              acyclic = depended.1;
              labels = clean.0 (second.0 (both.0 h).1);
            },
        λ h. both.1 (first.1 (sound.1 (h.entries, h.acyclic)), second.1 (clean.1 h.labels)),
      )
