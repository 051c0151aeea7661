-- ===== src/Metrics/Suppression/Attribution.antt =====
-- A failure is only attributed to a dependency that is failing and that the origin depends on.
use synthetics_operator.Shared.{
  ℕ, zero, suc, String, refl, inl, inr, Option, none, some, List, [], Bool-cases, Option-cases, In,
  ◌≡◌, ◌∙◌, ◌∷◌,
}
use synthetics_operator.Shared.Graph.{member, member-In, Reaches, here, step}
use synthetics_operator.Float.{Float64}
use synthetics_operator.Results.{Kind, Time, NamespacedName, DependencyRef, ref_eq}
use synthetics_operator.Metrics.{Store}
use synthetics_operator.Metrics.Suppression.{
  dependencies, Walk, deeper_first, visit, walk_list, walk_deps, find_unhealthy_dep,
  max_depends_depth,
}
use synthetics_operator.Metrics.Suppression.Steps.{
  Failing, visit-old, visit-new, walk_list-on, walk_list-found, deeper_first-some,
}

module _ (F : Float64) (s : Store F) (now : Time) (namespace : String) where
  -- A dependency that was found: failing, new to the walk, and reached from the list.
  pub record IsFound (deps v : List DependencyRef) (found : DependencyRef) : Type 0 where
    pub failing : Failing F s now namespace found
    pub fresh : ¬ In found v
    pub from : DependencyRef
    pub listed : In from deps
    pub reached : Reaches (dependencies F s now namespace) from found

  -- The visited set only grows, and what is answered is found.
  pub record IsSoundAt (r : Option DependencyRef × List DependencyRef) (deps v : List DependencyRef)
      : Type 0 where
    pub grows : (x : DependencyRef) → In x v → In x r.1
    pub finds : (found : DependencyRef) → r.0 ≡ some found → IsFound deps v found

  abbrev IsSoundWalk : Walk F s now namespace → Type 0
  IsSoundWalk go = (deps v : List DependencyRef) → IsSoundAt (go deps v) deps v

  IsFound-node :
      (dep found : DependencyRef) (v : List DependencyRef)
      → IsFound (dependencies F s now namespace dep) (dep ∷ v) found
      → IsFound (dep ∷ []) v found
  IsFound-node dep found v f = record {
    failing = f.failing;
    fresh = λ i. f.fresh (inr i);
    from = dep;
    listed = inl refl;
    reached = step dep f.from found f.listed f.reached;
  }

  deeper_first-grows :
      (dep : DependencyRef) (r : Option DependencyRef × List DependencyRef)
      → (deeper_first F s now namespace dep r).1 ≡ r.1
  deeper_first-grows dep (none, w) = refl
  deeper_first-grows dep (some d, w) = refl

  visit-IsSoundAt :
      (go : Walk F s now namespace) (dep : DependencyRef) (v : List DependencyRef)
      → IsSoundWalk go
      → IsSoundAt (visit F s now namespace go dep v) (dep ∷ []) v
  visit-IsSoundAt go dep v ih = elim (Bool-cases (member dep v)) [
    | inl old ↦
        rw (visit-old F s now namespace go dep v old)
          (record { grows = λ x i. i; finds = λ found e. cc })
    | inr new ↦ rw (visit-new F s now namespace go dep v new) (record {
      grows = λ x i. rw deeper_first-grows ((below.grows x (inr i)));
      finds = λ found e. elim (deeper_first-some F s now namespace dep found _ e) [
        | inl deeper ↦ IsFound-node dep found v (below.finds found deeper)
        | inr (_, same, failing) ↦ rw (← same) (record {
          failing = failing;
          fresh = λ i. cc (new, member-In dep v i);
          from = dep;
          listed = inl refl;
          reached = here dep;
        })
      ];
    })
  ]
    where
      below :
          IsSoundAt
            (go (dependencies F s now namespace dep) (dep ∷ v))
            (dependencies F s now namespace dep)
            (dep ∷ v)
      below = ih (dependencies F s now namespace dep) (dep ∷ v)

  IsFound-head :
      (dep found : DependencyRef) (deps v : List DependencyRef)
      → IsFound (dep ∷ []) v found
      → IsFound (dep ∷ deps) v found
  IsFound-head dep found deps v f = record {
    failing = f.failing;
    fresh = f.fresh;
    from = f.from;
    listed = elim f.listed [ inl same ↦ inl same | inr no_more ↦ absurd no_more ];
    reached = f.reached;
  }

  IsFound-tail :
      (dep found : DependencyRef) (deps v u : List DependencyRef)
      → ((x : DependencyRef) → In x v → In x u)
      → IsFound deps u found
      → IsFound (dep ∷ deps) v found
  IsFound-tail dep found deps v u grows f = record {
    failing = f.failing;
    fresh = λ i. f.fresh (grows found i);
    from = f.from;
    listed = inr f.listed;
    reached = f.reached;
  }

  walk_list-IsSoundWalk :
      (go : Walk F s now namespace) → IsSoundWalk go → IsSoundWalk (walk_list F s now namespace go)
  unfolding walk_list
  walk_list-IsSoundWalk go ih [] v = record { grows = λ x i. i; finds = λ found e. cc }
  walk_list-IsSoundWalk go ih (dep ∷ deps) v =
      let first = visit-IsSoundAt go dep v ih in
      let u = (visit F s now namespace go dep v).1 in
      let rest = walk_list-IsSoundWalk go ih deps u in
      elim (Option-cases (visit F s now namespace go dep v).0) [
        | inl on ↦ rw (walk_list-on F s now namespace go dep v deps on) (record {
          grows = λ x i. rest.grows x (first.grows x i);
          finds = λ found e. IsFound-tail dep found deps v u first.grows (rest.finds found e);
        })
        | inr (d, stop) ↦ rw (walk_list-found F s now namespace go dep v deps stop) (record {
          grows = first.grows;
          finds = λ found e. IsFound-head dep found deps v (first.finds found (stop ∙ e));
        })
      ]

  walk_deps-IsSoundWalk : (levels : ℕ) → IsSoundWalk (walk_deps F s now namespace levels)
  unfolding walk_deps
  walk_deps-IsSoundWalk zero deps v = record { grows = λ x i. i; finds = λ found e. cc }
  walk_deps-IsSoundWalk (suc levels) deps v =
      walk_list-IsSoundWalk (walk_deps F s now namespace levels) (walk_deps-IsSoundWalk levels) deps
        v

-- What findUnhealthyDep answers is failing, is reached from a direct dependency of the origin, and
-- is not the origin itself, whatever cycles the graph has.
pub find_unhealthy_dep-IsFound :
    (F : Float64) (s : Store F) (now : Time) (kind : Kind) (origin : NamespacedName)
    (found : DependencyRef)
    → find_unhealthy_dep F s now kind origin ≡ some found
    → IsFound F s now origin.namespace
        (dependencies F s now origin.namespace (record { kind = kind; name = origin.name }))
        (record { kind = kind; name = origin.name } ∷ [])
        found
unfolding find_unhealthy_dep
find_unhealthy_dep-IsFound F s now kind origin found h =
    (walk_deps-IsSoundWalk F s now origin.namespace max_depends_depth
        (dependencies F s now origin.namespace (record { kind = kind; name = origin.name }))
        (record { kind = kind; name = origin.name } ∷ [])).finds
      found h
