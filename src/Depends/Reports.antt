-- ===== src/Depends/Reports.antt =====
-- What the admission walk reports is there: a cycle through the owner, or a long chain.
use synthetics_operator.Shared.{
  ℕ, zero, suc, String, refl, inl, inr, some, List, [], arith, Bool-cases, Option-cases, In, ◌≡◌,
  ◌∷◌, ◌==◌, string_eq, bytes_eq, nat_eq,
}
use synthetics_operator.Shared.Graph.{member, Reaches, here, step}
use synthetics_operator.Results.{DependencyRef, ref_eq, ref_beq_iff}
use synthetics_operator.Depends.{
  Reader, Cause, unsupported_kind, bad_name, self_dependency, duplicate, dependency_not_found,
  lookup_failed, chain_too_deep, cycle, fetch_depends, visit, walk_list, walk_for_cycle,
  check_no_cycle, max_depends_depth, Walk,
}
use synthetics_operator.Depends.Steps.{
  children, children_read, visit-owner, visit-old, visit-unread, visit-read, walk_list-on,
}

module _ (reader : Reader) (namespace : String) where
  -- A chain of `n` references hangs below the list, each in the dependencies that were read of the one
  -- before it, and each of them read itself.
  pub data Chain : ℕ → List DependencyRef → Type 0 where
    link_end : (deps : List DependencyRef) → Chain zero deps
    link :
        (n : ℕ) (dep : DependencyRef) (deps sub : List DependencyRef)
        → In dep deps
        → fetch_depends reader namespace dep ≡ some sub
        → Chain n sub
        → Chain (suc n) deps

  -- What each report of a walk with `n` levels left says of the graph.
  abbrev pub Justifies : DependencyRef → ℕ → List DependencyRef → Cause → Type 0
  Justifies owner n deps cycle =
      (dep : DependencyRef) × In dep deps × Reaches (children reader namespace) dep owner
  Justifies owner n deps chain_too_deep = Chain n deps
  Justifies owner n deps unsupported_kind = ⊥
  Justifies owner n deps bad_name = ⊥
  Justifies owner n deps self_dependency = ⊥
  Justifies owner n deps duplicate = ⊥
  Justifies owner n deps dependency_not_found = ⊥
  Justifies owner n deps lookup_failed = ⊥

  module _ (owner : DependencyRef) where
    abbrev IsJust : ℕ → Walk reader namespace → Type 0
    IsJust n go =
        (deps v : List DependencyRef) (cause : Cause)
        → (go deps v).0 ≡ some cause
        → Justifies owner n deps cause

    Justifies-tail :
        (n : ℕ) (dep : DependencyRef) (deps : List DependencyRef) (cause : Cause)
        → Justifies owner (suc n) deps cause
        → Justifies owner (suc n) (dep ∷ deps) cause
    Justifies-tail n dep deps cycle (d, i, r) = (d, inr i, r)
    Justifies-tail n dep deps chain_too_deep (link _ d _ sub i read c) =
        link n d (dep ∷ deps) sub (inr i) read c
    Justifies-tail n dep deps unsupported_kind h = h
    Justifies-tail n dep deps bad_name h = h
    Justifies-tail n dep deps self_dependency h = h
    Justifies-tail n dep deps duplicate h = h
    Justifies-tail n dep deps dependency_not_found h = h
    Justifies-tail n dep deps lookup_failed h = h

    Justifies-node :
        (n : ℕ) (dep : DependencyRef) (deps sub : List DependencyRef) (cause : Cause)
        → fetch_depends reader namespace dep ≡ some sub
        → Justifies owner n sub cause
        → Justifies owner (suc n) (dep ∷ deps) cause
    Justifies-node n dep deps sub cycle read (d, i, r) =
        (dep, inl refl, step dep d owner (rw (children_read reader namespace dep read) i) r)
    Justifies-node n dep deps sub chain_too_deep read c =
        link n dep (dep ∷ deps) sub (inl refl) read c
    Justifies-node n dep deps sub unsupported_kind read h = h
    Justifies-node n dep deps sub bad_name read h = h
    Justifies-node n dep deps sub self_dependency read h = h
    Justifies-node n dep deps sub duplicate read h = h
    Justifies-node n dep deps sub dependency_not_found read h = h
    Justifies-node n dep deps sub lookup_failed read h = h

    Justifies-owner :
        (n : ℕ) (dep : DependencyRef) (deps : List DependencyRef) (cause : Cause)
        → dep ≡ owner
        → cycle ≡ cause
        → Justifies owner (suc n) (dep ∷ deps) cause
    Justifies-owner n dep deps cause same e = rw (← e) (dep, inl refl, rw (← same) (here dep))

    visit-Justifies :
        (n : ℕ) (go : Walk reader namespace) (dep : DependencyRef) (deps v : List DependencyRef)
        (cause : Cause)
        → IsJust n go
        → (visit reader namespace go owner dep v).0 ≡ some cause
        → Justifies owner (suc n) (dep ∷ deps) cause
    visit-Justifies n go dep deps v cause ih h = elim (Bool-cases (dep == owner)) [
      | inl same ↦
          Justifies-owner n dep deps cause ((ref_beq_iff dep owner).0 same)
            (cc (rw (visit-owner reader namespace owner go dep v same) at h))
      | inr other ↦ elim (Bool-cases (member dep v)) [
        | inl old ↦ cc (rw (visit-old reader namespace owner go dep v other old) at h)
        | inr new ↦ elim (Option-cases (fetch_depends reader namespace dep)) [
          | inl unread ↦
              cc (rw (visit-unread reader namespace owner go dep v other new unread) at h)
          | inr (sub, read) ↦ Justifies-node n dep deps sub cause read (
              ih sub (dep ∷ v) cause
                (rw (visit-read reader namespace owner go dep v other new read) at h))
        ]
      ]
    ]

    walk_list-halts :
        (go : Walk reader namespace) (dep : DependencyRef) (deps v : List DependencyRef)
        {first cause : Cause}
        → (visit reader namespace go owner dep v).0 ≡ some first
        → (walk_list reader namespace go owner (dep ∷ deps) v).0 ≡ some cause
        → first ≡ cause
    unfolding walk_list
    walk_list-halts go dep deps v stop h = ground arith

    walk_list-IsJust :
        (n : ℕ) (go : Walk reader namespace)
        → IsJust n go
        → IsJust (suc n) (walk_list reader namespace go owner)
    unfolding walk_list
    walk_list-IsJust n go ih [] v cause h = cc
    walk_list-IsJust n go ih (dep ∷ deps) v cause h =
        let tail = walk_list-IsJust n go ih deps (visit reader namespace go owner dep v).1 cause in
        elim (Option-cases (visit reader namespace go owner dep v).0) [
          | inl on ↦
              Justifies-tail n dep deps cause
                (tail (rw (walk_list-on reader namespace owner go dep deps v on) at h))
          | inr (first, stop) ↦
              visit-Justifies n go dep deps v cause ih
                (rw (← walk_list-halts go dep deps v stop h) stop)
        ]

    walk_for_cycle-IsJust : (n : ℕ) → IsJust n (walk_for_cycle reader namespace n owner)
    unfolding walk_for_cycle
    walk_for_cycle-IsJust zero deps v cause h =
        let same : chain_too_deep ≡ cause = cc in rw (← same) (link_end deps)
    walk_for_cycle-IsJust (suc n) deps v cause h =
        walk_list-IsJust n (walk_for_cycle reader namespace n owner) (walk_for_cycle-IsJust n) deps
          v cause h

  -- An error of checkNoCycle is either a cycle, and then the owner can be reached from one of its
  -- dependencies, or a chain that is too deep, and then a chain of maxDependsDepth references hangs
  -- below them, the dependencies of each of which were read, the last one's too.
  pub check_no_cycle_complete :
      (owner : DependencyRef) (deps : List DependencyRef) (cause : Cause)
      → check_no_cycle reader namespace owner deps ≡ some cause
      → Justifies owner max_depends_depth deps cause
  unfolding check_no_cycle
  check_no_cycle_complete owner deps cause h =
      walk_for_cycle-IsJust owner max_depends_depth deps [] cause h
