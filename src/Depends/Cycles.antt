-- ===== src/Depends/Cycles.antt =====
-- The admission walk finds every cycle through the owner, whatever the rest of the graph.
use synthetics_operator.Shared.{
  ℕ, zero, suc, String, refl, ap, inl, inr, false, Option, none, List, [], Bool-cases, Option-cases,
  In, ◌≡◌, ◌≢◌, ◌∷◌, ◌==◌, string_eq, bytes_eq, nat_eq,
}
use synthetics_operator.Shared.Graph.{
  member, In-member, Reaches, Explored, Explored-nil, Explored-skip, Explored-node, Explored-cons,
  Explored-Reaches,
}
use synthetics_operator.Results.{DependencyRef, ref_eq, ref_beq_iff}
use synthetics_operator.Depends.Steps.{
  children, children_read, children_unread, visit-owner, visit-old, visit-unread, visit-read,
  walk_list-on, walk_list-stop,
}
use synthetics_operator.Depends.{
  Reader, Cause, fetch_depends, visit, walk_list, walk_for_cycle, check_no_cycle, max_depends_depth,
  Walk,
}

module _ (reader : Reader) (namespace : String) where
  module _ (owner : DependencyRef) where
    abbrev IsOther : DependencyRef → Type 0
    IsOther dep = dep ≢ owner

    -- A walk that answers nil has explored what it was given.
    abbrev pub Explores : Walk reader namespace → Type 0
    Explores go =
        (deps v : List DependencyRef)
        → (go deps v).0 ≡ none
        → Explored (children reader namespace) IsOther v deps (go deps v).1

    visit-Explored :
        (go : Walk reader namespace) (dep : DependencyRef) (v : List DependencyRef)
        → Explores go
        → (visit reader namespace go owner dep v).0 ≡ none
        → Explored
            (children reader namespace)
            IsOther
            v
            (dep ∷ [])
            (visit reader namespace go owner dep v).1
    visit-Explored go dep v ih h = elim (Bool-cases (dep == owner)) [
      | inl same ↦ cc (
          ap (λ (r : Option Cause × List DependencyRef). r.0)
            (visit-owner reader namespace owner go dep v same))
      | inr other ↦ elim (Bool-cases (member dep v)) [
        | inl old ↦
            rw (visit-old reader namespace owner go dep v other old)
              (Explored-skip (children reader namespace) IsOther dep v (In-member dep v old))
        | inr new ↦ elim (Option-cases (fetch_depends reader namespace dep)) [
          | inl unread ↦ rw (visit-unread reader namespace owner go dep v other new unread) (
              Explored-node (children reader namespace) IsOther dep v (dep ∷ v) (not_owner other) (
                rw (children_unread reader namespace dep unread)
                  (Explored-nil (children reader namespace) IsOther (dep ∷ v))))
          | inr (sub, read) ↦ rw (visit-read reader namespace owner go dep v other new read) (
              Explored-node (children reader namespace) IsOther dep v _ (not_owner other) (
                rw (children_read reader namespace dep read) (
                  ih sub (dep ∷ v)
                    (rw (visit-read reader namespace owner go dep v other new read) at h))))
        ]
      ]
    ]
      where
        not_owner : (dep == owner) ≡ false → dep ≢ owner
        not_owner other e = cc (other, (ref_beq_iff dep owner).1 e)

    walk_list-Explores :
        (go : Walk reader namespace) → Explores go → Explores (walk_list reader namespace go owner)
    unfolding walk_list
    walk_list-Explores go ih [] v h = Explored-nil (children reader namespace) IsOther v
    walk_list-Explores go ih (dep ∷ deps) v h =
        let tail = walk_list-Explores go ih deps (visit reader namespace go owner dep v).1 in
        elim (Option-cases (visit reader namespace go owner dep v).0) [
          | inr (cause, stop) ↦ absurd (walk_list-stop reader namespace owner go dep deps v stop h)
          | inl on ↦ rw (walk_list-on reader namespace owner go dep deps v on) (
              Explored-cons (children reader namespace) IsOther dep deps v _ _
                (visit-Explored go dep v ih on)
                (tail (rw (walk_list-on reader namespace owner go dep deps v on) at h)))
        ]

    walk_for_cycle-Explores : (levels : ℕ) → Explores (walk_for_cycle reader namespace levels owner)
    unfolding walk_for_cycle
    walk_for_cycle-Explores zero deps v h = cc
    walk_for_cycle-Explores (suc levels) deps v h =
        walk_list-Explores (walk_for_cycle reader namespace levels owner)
          (walk_for_cycle-Explores levels) deps v h

  -- Where checkNoCycle answers nil, the owner cannot be reached from its dependencies.
  pub check_no_cycle_sound :
      (owner dep : DependencyRef) (deps : List DependencyRef)
      → check_no_cycle reader namespace owner deps ≡ none
      → In dep deps
      → ¬ Reaches (children reader namespace) dep owner
  unfolding check_no_cycle
  check_no_cycle_sound owner dep deps h i r =
      Explored-Reaches (children reader namespace) (IsOther owner) deps _ dep owner
        (walk_for_cycle-Explores owner max_depends_depth deps [] h) i r refl
