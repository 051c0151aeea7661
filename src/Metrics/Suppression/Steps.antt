-- ===== src/Metrics/Suppression/Steps.antt =====
-- One round of the suppression walk, on each of its branches, and what a found dependency is.
use synthetics_operator.Shared.{
  String, refl, inl, inr, true, false, Option, none, some, List, arith, ◌≡◌, ◌⊎◌, ◌∷◌,
}
use synthetics_operator.Shared.Graph.{member}
use synthetics_operator.Float.{Float64}
use synthetics_operator.Results.{Time, DependencyRef, ref_eq}
use synthetics_operator.Metrics.{Store}
use synthetics_operator.Metrics.Suppression.{
  is_failing, name_of, dependencies, Walk, deeper_first, visit, walk_list,
}

module _ (F : Float64) (s : Store F) (now : Time) (namespace : String) where
  abbrev pub Failing : DependencyRef → Type 0
  Failing dep = is_failing F s now dep.kind (name_of F s now namespace dep) ≡ true

  abbrev pub IsSound : DependencyRef → Type 0
  IsSound dep = is_failing F s now dep.kind (name_of F s now namespace dep) ≡ false

  module _ (go : Walk F s now namespace) (dep : DependencyRef) (v : List DependencyRef) where
    pub visit-old : member dep v ≡ true → visit F s now namespace go dep v ≡ (none, v)
    unfolding visit
    visit-old h = ground arith

    pub visit-new :
        member dep v ≡ false
        → visit F s now namespace go dep v
          ≡ deeper_first F s now namespace dep (go (dependencies F s now namespace dep) (dep ∷ v))
    unfolding visit
    visit-new h = ground arith

    module _ (deps : List DependencyRef) where
      pub walk_list-on :
          (visit F s now namespace go dep v).0 ≡ none
          → walk_list F s now namespace go (dep ∷ deps) v
            ≡ walk_list F s now namespace go deps (visit F s now namespace go dep v).1
      unfolding walk_list
      walk_list-on on = ground arith

      pub walk_list-found :
          {found : DependencyRef}
          → (visit F s now namespace go dep v).0 ≡ some found
          → walk_list F s now namespace go (dep ∷ deps) v
            ≡ (some found, (visit F s now namespace go dep v).1)
      unfolding walk_list
      walk_list-found on = ground arith

  pub deeper_first-none :
      (dep : DependencyRef) (r : Option DependencyRef × List DependencyRef)
      → (deeper_first F s now namespace dep r).0 ≡ none
      → (r.0 ≡ none) × IsSound dep × ((deeper_first F s now namespace dep r).1 ≡ r.1)
  deeper_first-none dep (none, w) h = (refl, ground arith, refl)
  deeper_first-none dep (some d, w) h = cc

  pub deeper_first-some :
      (dep found : DependencyRef) (r : Option DependencyRef × List DependencyRef)
      → (deeper_first F s now namespace dep r).0 ≡ some found
      → (r.0 ≡ some found) ⊎ ((r.0 ≡ none) × (dep ≡ found) × Failing dep)
  deeper_first-some dep found (none, w) h = inr (refl, ground arith, ground arith)
  deeper_first-some dep found (some d, w) h = inl h
