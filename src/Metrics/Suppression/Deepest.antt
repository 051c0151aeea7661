-- ===== src/Metrics/Suppression/Deepest.antt =====
-- On an acyclic graph under the depth cap, a failing dependency is found whenever there is one, and
-- the one that is found is the deepest: nothing that it depends on is failing.
use synthetics_operator.Shared.{
  ℕ, zero, suc, String, inl, inr, none, some, List, [], arith, Bool-cases, Option-cases, In, ◌≤◌,
  ◌<◌, ◌≡◌, ◌∙◌, ◌∷◌,
}
use synthetics_operator.Shared.Graph.{member, Reaches, Explored, All-In}
use synthetics_operator.Float.{Float64}
use synthetics_operator.Results.{Time, DependencyRef, ref_eq}
use synthetics_operator.Metrics.{NamespacedName, Kind, Store}
use synthetics_operator.Metrics.Suppression.{
  max_depends_depth, find_unhealthy_dep, dependencies, Walk, visit, walk_list, walk_deps,
}
use synthetics_operator.Metrics.Suppression.Steps.{
  visit-old, visit-new, walk_list-on, walk_list-found, deeper_first-some,
}
use synthetics_operator.Metrics.Suppression.Ranks.{
  children, Sound, IsRanked, Below, Below-children, Explores, visit-Explored, walk_deps-Explores,
  Settled, Settled-node, Settled-Explored, Settled-Reaches,
}

module _ (F : Float64) (s : Store F) (now : Time) (namespace : String) where
  -- Nothing below `found` is failing.
  pub record IsDeepest (found : DependencyRef) : Type 0 where
    pub sound_below :
        (c x : DependencyRef)
        → In c (dependencies F s now namespace found)
        → Reaches (dependencies F s now namespace) c x
        → Sound F s now namespace x

  module _ (rank : DependencyRef → ℕ) (ranked : IsRanked F s now namespace rank) where
    abbrev FindsDeepest : ℕ → Walk F s now namespace → Type 0
    FindsDeepest n go =
        (m : ℕ) (deps v : List DependencyRef) (found : DependencyRef)
        → m ≤ n
        → Below F s now namespace rank ranked m deps
        → Settled F s now namespace rank ranked m v
        → (go deps v).0 ≡ some found
        → IsDeepest found

    own_IsDeepest :
        (n m : ℕ) (go : Walk F s now namespace) (dep : DependencyRef) (v : List DependencyRef)
        → Explores F s now namespace rank ranked n go
        → rank dep ≤ n
        → rank dep < m
        → Settled F s now namespace rank ranked m v
        → (go (children F s now namespace dep) (dep ∷ v)).0 ≡ none
        → IsDeepest dep
    own_IsDeepest n m go dep v explores low lower settled clean = record {
      sound_below = λ c x i r.
          Settled-Reaches F s now namespace rank ranked (rank dep) _ c x
            (Settled-Explored F s now namespace rank ranked (rank dep) _ (dep ∷ v) _
              (Settled-node F s now namespace rank ranked m dep v lower settled) explored)
            (All-In _ c (children F s now namespace dep) explored.covers i) (ranked.falls dep c i)
            r;
    }
      where
        explored :
            Explored
              (children F s now namespace)
              (Sound F s now namespace)
              (dep ∷ v)
              (children F s now namespace dep)
              (go (children F s now namespace dep) (dep ∷ v)).1
        explored =
            explores (children F s now namespace dep) (dep ∷ v)
              (Below-children F s now namespace rank ranked dep n low) clean

    visit-IsDeepest :
        (n m : ℕ) (go : Walk F s now namespace) (dep : DependencyRef) (v : List DependencyRef)
        (found : DependencyRef)
        → Explores F s now namespace rank ranked n go
        → FindsDeepest n go
        → rank dep ≤ n
        → rank dep < m
        → Settled F s now namespace rank ranked m v
        → (visit F s now namespace go dep v).0 ≡ some found
        → IsDeepest found
    visit-IsDeepest n m go dep v found explores ih low lower settled h =
        elim (Bool-cases (member dep v)) [
          | inl old ↦ cc (rw (visit-old F s now namespace go dep v old) at h)
          | inr new ↦
              elim (deeper_first-some F s now namespace dep found
                (go (children F s now namespace dep) (dep ∷ v))
                (rw (visit-new F s now namespace go dep v new) at h)) [
                  | inl deeper ↦
                      ih (rank dep) (children F s now namespace dep) (dep ∷ v) found low
                        (Below-children F s now namespace rank ranked dep (rank dep) (omega arith))
                        (Settled-node F s now namespace rank ranked m dep v lower settled) deeper
                  | inr (clean, same, _) ↦
                      rw (← same) (own_IsDeepest n m go dep v explores low lower settled clean)
                ]
        ]

    walk_list-FindsDeepest :
        (n : ℕ) (go : Walk F s now namespace)
        → Explores F s now namespace rank ranked n go
        → FindsDeepest n go
        → FindsDeepest (suc n) (walk_list F s now namespace go)
    unfolding walk_list
    walk_list-FindsDeepest n go explores ih m [] v found fits low settled h = cc
    walk_list-FindsDeepest n go explores ih m (dep ∷ deps) v found fits (low, lows) settled h =
        let u = (visit F s now namespace go dep v).1 in
        let rest = walk_list-FindsDeepest n go explores ih m deps u found fits lows in
        elim (Option-cases (visit F s now namespace go dep v).0) [
          | inl on ↦
              rest
                (Settled-Explored F s now namespace rank ranked m (dep ∷ []) v u settled (
                  visit-Explored F s now namespace rank ranked n go dep v explores (omega arith)
                    on))
                (rw (walk_list-on F s now namespace go dep v deps on) at h)
          | inr (d, stop) ↦
              visit-IsDeepest n m go dep v found explores ih (omega arith) low settled
                (stop ∙ (rw (walk_list-found F s now namespace go dep v deps stop) at h))
        ]

    walk_deps-FindsDeepest : (n : ℕ) → FindsDeepest n (walk_deps F s now namespace n)
    unfolding walk_deps
    walk_deps-FindsDeepest zero m deps v found fits low settled h = cc
    walk_deps-FindsDeepest (suc n) m deps v found fits low settled h =
        walk_list-FindsDeepest n (walk_deps F s now namespace n)
          (walk_deps-Explores F s now namespace rank ranked n) (walk_deps-FindsDeepest n) m deps v
          found fits low settled h

module _ (F : Float64) (s : Store F) (now : Time) (kind : Kind) (origin : NamespacedName) where
  abbrev pub self : DependencyRef
  self = record { kind = kind; name = origin.name }

  module _ (rank : DependencyRef → ℕ) (ranked : IsRanked F s now origin.namespace rank) where
    self-Settled : Settled F s now origin.namespace rank ranked (rank self) (self ∷ [])
    self-Settled = record {
      settled =
          λ x i. elim i [ inl same ↦ inr (rw same (omega arith)) | inr no_more ↦ absurd no_more ];
    }

    -- Where every dependency has a smaller rank than its dependent and the origin's rank is at most
    -- maxDependsDepth: if nothing is found, nothing that the origin depends on is failing, at any
    -- distance.
    pub find_unhealthy_dep_complete :
        (a x : DependencyRef)
        → rank self ≤ max_depends_depth
        → find_unhealthy_dep F s now kind origin ≡ none
        → In a (dependencies F s now origin.namespace self)
        → Reaches (dependencies F s now origin.namespace) a x
        → Sound F s now origin.namespace x
    unfolding find_unhealthy_dep
    find_unhealthy_dep_complete a x fits h i r =
        let explored =
          walk_deps-Explores F s now origin.namespace rank ranked max_depends_depth
            (dependencies F s now origin.namespace self) (self ∷ [])
            (Below-children F s now origin.namespace rank ranked self max_depends_depth fits) h in
        Settled-Reaches F s now origin.namespace rank ranked (rank self) _ a x
          (Settled-Explored F s now origin.namespace rank ranked (rank self) _ (self ∷ []) _
            self-Settled explored)
          (All-In _ a (dependencies F s now origin.namespace self) explored.covers i)
          (ranked.falls self a i) r

    -- Where every dependency has a smaller rank than its dependent and the origin's rank is at most
    -- maxDependsDepth: nothing below what is found is failing.
    pub find_unhealthy_dep-IsDeepest :
        (found : DependencyRef)
        → rank self ≤ max_depends_depth
        → find_unhealthy_dep F s now kind origin ≡ some found
        → IsDeepest F s now origin.namespace found
    unfolding find_unhealthy_dep
    find_unhealthy_dep-IsDeepest found fits h =
        walk_deps-FindsDeepest F s now origin.namespace rank ranked max_depends_depth (rank self)
          (dependencies F s now origin.namespace self) (self ∷ []) found fits
          (Below-children F s now origin.namespace rank ranked self (rank self) (omega arith))
          self-Settled h
