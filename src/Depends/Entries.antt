-- ===== src/Depends/Entries.antt =====
-- The loop over the entries of spec.depends, and what an admitted list is.
use synthetics_operator.Shared.{
  ℕ, String, refl, inl, inr, Bool, true, Option, none, some, List, [], arith, Bool-cases, In, ◌+◌,
  ◌≡◌, ◌≢◌, ◌↔◌, ◌∷◌, ◌==◌, string_eq, bytes_eq, nat_eq,
}
use synthetics_operator.Shared.Graph.{Reaches, member, In-member, member-In}
use synthetics_operator.Results.{DependencyRef, ref_eq, ref_beq_iff}
use synthetics_operator.Shared.Graph.{Reaches}
use synthetics_operator.Depends.Steps.{children}
use synthetics_operator.Depends.Cycles.{check_no_cycle_sound}
use synthetics_operator.Depends.{
  walk_list, walk_for_cycle, check_no_cycle, cycle_error, validate_depends, Reader, Cause, Fetch,
  found, not_found, failed, FieldError, existence, is_dependency_kind, object_key, check_dep_exists,
  check_entry, check_entries, report,
}

existence-found :
    (f : Fetch) → (existence f ≡ none) ↔ ((deps : List DependencyRef) × (f ≡ found deps))
existence-found (found deps) = (λ h. (deps, refl), λ h. refl)
existence-found not_found = (λ h. cc, λ h. cc h.1)
existence-found failed = (λ h. cc, λ h. cc h.1)

report-nil :
    (i : ℕ) (err : Option Cause) (errs : List FieldError)
    → (report i err errs ≡ []) ↔ ((err ≡ none) × (errs ≡ []))
report-nil i none errs = ground arith
report-nil i (some cause) errs = ground arith

module _ (reader : Reader) (namespace : String) (is_dns1123_subdomain : String → Bool) where
  -- An entry that raises no error, after the entries of `seen`.
  pub record IsEntry (owner dep : DependencyRef) (seen : List DependencyRef) : Type 0 where
    pub known : is_dependency_kind dep.kind ≡ true
    pub named : is_dns1123_subdomain dep.name ≡ true
    pub other : dep ≢ owner
    pub fresh : ¬ In dep seen
    pub exists :
        (deps : List DependencyRef) × (reader dep.kind (object_key namespace dep.name) ≡ found deps)

  -- Every entry is sound, with those before it as seen.
  abbrev pub Entries : DependencyRef → List DependencyRef → List DependencyRef → Type 0
  Entries owner [] seen = Unit
  Entries owner (dep ∷ deps) seen = IsEntry owner dep seen × Entries owner deps (dep ∷ seen)

  check_entry-IsEntry :
      (owner dep : DependencyRef) (seen : List DependencyRef)
      → (check_entry reader namespace is_dns1123_subdomain owner dep seen).0 ≡ none
      → IsEntry owner dep seen
        × ((check_entry reader namespace is_dns1123_subdomain owner dep seen).1 ≡ dep ∷ seen)
  unfolding check_entry check_dep_exists
  check_entry-IsEntry owner dep seen h = (
    record {
      known = ground arith;
      named = ground arith;
      other = λ e. ground (arith, ref_beq_iff dep owner);
      fresh = λ i. ground (arith, member-In dep seen i);
      exists = (existence-found (reader dep.kind (object_key namespace dep.name))).0 (ground arith);
    },
    ground arith,
  )

  IsEntry-check_entry :
      (owner dep : DependencyRef) (seen : List DependencyRef)
      → IsEntry owner dep seen
      → check_entry reader namespace is_dns1123_subdomain owner dep seen ≡ (none, dep ∷ seen)
  unfolding check_entry check_dep_exists
  IsEntry-check_entry owner dep seen e = elim (Bool-cases (member dep seen)) [
    | inl old ↦ absurd (e.fresh (In-member dep seen old))
    | inr new ↦ elim (Bool-cases (dep == owner)) [
      | inl same ↦ absurd (e.other ((ref_beq_iff dep owner).0 same))
      | inr other ↦ let (deps, at) = e.exists in ground (arith, e.known, e.named, at)
    ]
  ]

  check_entries_iff :
      (owner : DependencyRef) (i : ℕ) (deps seen : List DependencyRef)
      → (check_entries reader namespace is_dns1123_subdomain owner i deps seen ≡ [])
        ↔ Entries owner deps seen
  unfolding check_entries
  check_entries_iff owner i [] seen = (λ _. tt, λ _. refl)
  check_entries_iff owner i (dep ∷ deps) seen =
      let ih = check_entries_iff owner (i + 1) deps (dep ∷ seen) in
      (
        λ h.
            let (clean, rest) = (report-nil i _ _).0 h in
            let (entry, next) = check_entry-IsEntry owner dep seen clean in
            (entry, ih.0 (rw next at rest)),
        λ (entry, rest). rw (IsEntry-check_entry owner dep seen entry) (ih.1 rest),
      )

  cycle_error-nil : (err : Option Cause) → (cycle_error err ≡ []) ↔ (err ≡ none)
  cycle_error-nil none = (λ _. refl, λ _. refl)
  cycle_error-nil (some cause) = (λ h. cc, λ h. cc)

  -- A list is admitted exactly when every entry names a known kind, has a valid name, is neither
  -- the owner nor a repetition, and exists, and the walk for cycles answers nil.
  pub validate_depends_iff :
      (owner : DependencyRef) (deps : List DependencyRef)
      → (validate_depends reader namespace is_dns1123_subdomain owner deps ≡ [])
        ↔ (Entries owner deps [] × (check_no_cycle reader namespace owner deps ≡ none))
  unfolding validate_depends
  validate_depends_iff owner [] =
      (λ _. (tt, unfold check_no_cycle walk_for_cycle walk_list in refl), λ _. refl)
  validate_depends_iff owner (dep ∷ deps) =
      let entries = check_entries_iff owner 0 (dep ∷ deps) [] in
      let last = cycle_error-nil (check_no_cycle reader namespace owner (dep ∷ deps)) in
      (
        λ h. (entries.0 (ground arith), last.0 (ground arith)),
        λ h. rw (entries.1 h.0, validate_depends) (last.1 h.1),
      )

  -- An admitted dependency list leads to no cycle through its owner, at any distance.
  pub validate_depends-acyclic :
      (owner dep : DependencyRef) (deps : List DependencyRef)
      → validate_depends reader namespace is_dns1123_subdomain owner deps ≡ []
      → In dep deps
      → ¬ Reaches (children reader namespace) dep owner
  validate_depends-acyclic owner dep deps h =
      check_no_cycle_sound reader namespace owner dep deps ((validate_depends_iff owner deps).0 h).1
