-- ===== src/Metrics/Suppression/Ranks.antt =====
-- On a graph without cycles whose chains fit under the depth cap, a walk that finds nothing has
-- explored everything. A rank is the length of the longest chain below a reference.
use synthetics_operator.Shared.{
  ℕ, zero, suc, String, refl, inl, inr, none, List, [], arith, Bool-cases, Option-cases, All, In,
  ◌≤◌, ◌<◌, ◌≡◌, ◌⊎◌, ◌∷◌,
}
use synthetics_operator.Shared.Graph.{
  member, In-member, Reaches, here, step, Done, Explored, Explored-nil, Explored-skip,
  Explored-node, Explored-cons, All-In,
}
use synthetics_operator.Float.{Float64}
use synthetics_operator.Results.{Time, DependencyRef, ref_eq}
use synthetics_operator.Metrics.{Store}
use synthetics_operator.Metrics.Suppression.{dependencies, Walk, visit, walk_list, walk_deps}
use synthetics_operator.Metrics.Suppression.Steps.{
  IsSound, visit-old, visit-new, walk_list-on, walk_list-found, deeper_first-none,
}

module _ (F : Float64) (s : Store F) (now : Time) (namespace : String) where
  abbrev pub children : DependencyRef → List DependencyRef
  children = dependencies F s now namespace

  abbrev pub Sound : DependencyRef → Type 0
  Sound = IsSound F s now namespace

  pub record IsRanked (rank : DependencyRef → ℕ) : Type 0 where
    pub falls : (a b : DependencyRef) → In b (children a) → rank b < rank a

  module _ (rank : DependencyRef → ℕ) (ranked : IsRanked rank) where
    abbrev pub Below : ℕ → List DependencyRef → Type 0
    Below n deps = All (λ d. rank d < n) deps

    Below-of :
        (n : ℕ) (deps : List DependencyRef)
        → ((d : DependencyRef) → In d deps → rank d < n)
        → Below n deps
    Below-of n [] f = tt
    Below-of n (d ∷ ds) f = (f d (inl refl), Below-of n ds (λ x i. f x (inr i)))

    pub Below-children : (dep : DependencyRef) (n : ℕ) → rank dep ≤ n → Below n (children dep)
    Below-children dep n h = Below-of n (children dep) (λ d i. omega (arith, ranked.falls dep d i))

    abbrev pub Explores : ℕ → Walk F s now namespace → Type 0
    Explores n go =
        (deps v : List DependencyRef)
        → Below n deps
        → (go deps v).0 ≡ none
        → Explored children Sound v deps (go deps v).1

    pub visit-Explored :
        (n : ℕ) (go : Walk F s now namespace) (dep : DependencyRef) (v : List DependencyRef)
        → Explores n go
        → rank dep ≤ n
        → (visit F s now namespace go dep v).0 ≡ none
        → Explored children Sound v (dep ∷ []) (visit F s now namespace go dep v).1
    visit-Explored n go dep v ih low h = elim (Bool-cases (member dep v)) [
      | inl old ↦
          rw (visit-old F s now namespace go dep v old)
            (Explored-skip children Sound dep v (In-member dep v old))
      | inr new ↦
          let (clean, sound, same) =
            deeper_first-none F s now namespace dep (go (children dep) (dep ∷ v))
              (rw (visit-new F s now namespace go dep v new) at h) in
          rw (visit-new F s now namespace go dep v new, same)
            (Explored-node children Sound dep v _ sound
              (ih (children dep) (dep ∷ v) (Below-children dep n low) clean))
    ]

    pub walk_list-Explores :
        (n : ℕ) (go : Walk F s now namespace)
        → Explores n go
        → Explores (suc n) (walk_list F s now namespace go)
    unfolding walk_list
    walk_list-Explores n go ih [] v low h = Explored-nil children Sound v
    walk_list-Explores n go ih (dep ∷ deps) v (low, lows) h =
        let tail = walk_list-Explores n go ih deps (visit F s now namespace go dep v).1 lows in
        elim (Option-cases (visit F s now namespace go dep v).0) [
          | inr (d, stop) ↦ cc (rw (walk_list-found F s now namespace go dep v deps stop) at h)
          | inl on ↦ rw (walk_list-on F s now namespace go dep v deps on) (
              Explored-cons children Sound dep deps v _ _
                (visit-Explored n go dep v ih (omega arith) on)
                (tail (rw (walk_list-on F s now namespace go dep v deps on) at h)))
        ]

    pub walk_deps-Explores : (n : ℕ) → Explores n (walk_deps F s now namespace n)
    unfolding walk_deps
    walk_deps-Explores zero [] v low h = Explored-nil children Sound v
    walk_deps-Explores zero (d ∷ ds) v low h = absurd (omega arith)
    walk_deps-Explores (suc n) deps v low h =
        walk_list-Explores n (walk_deps F s now namespace n) (walk_deps-Explores n) deps v low h

    -- Each visited reference is settled, or has a rank of at least `m`: it is still being visited.
    pub record Settled (m : ℕ) (v : List DependencyRef) : Type 0 where
      pub settled : (x : DependencyRef) → In x v → Done children Sound v x ⊎ (m ≤ rank x)

    Done-wider :
        (v w : List DependencyRef) (x : DependencyRef)
        → ((y : DependencyRef) → In y v → In y w)
        → Done children Sound v x
        → Done children Sound w x
    Done-wider v w x f (g, c) = (g, wide (children x) c)
      where
        wide : (ds : List DependencyRef) → All (λ y. In y v) ds → All (λ y. In y w) ds
        wide [] c = tt
        wide (d ∷ ds) (i, is) = (f d i, wide ds is)

    pub Settled-node :
        (m : ℕ) (dep : DependencyRef) (v : List DependencyRef)
        → rank dep < m
        → Settled m v
        → Settled (rank dep) (dep ∷ v)
    Settled-node m dep v low h = record {
      settled = λ x i. elim i [
        | inl same ↦ inr (rw same (omega arith))
        | inr old ↦ elim (h.settled x old) [
          | inl done ↦ inl (Done-wider v (dep ∷ v) x (λ y j. inr j) done)
          | inr open_still ↦ inr (omega arith)
        ]
      ];
    }

    pub Settled-Explored :
        (m : ℕ) (deps v w : List DependencyRef)
        → Settled m v
        → Explored children Sound v deps w
        → Settled m w
    Settled-Explored m deps v w h e = record {
      settled = λ x i. elim (e.closed x i) [
        | inr done ↦ inl done
        | inl old ↦ elim (h.settled x old) [
          | inl done ↦ inl (Done-wider v w x e.grows done)
          | inr open_still ↦ inr open_still
        ]
      ];
    }

    -- Below the bound, all that can be reached from a settled set is sound.
    pub Settled-Reaches :
        (m : ℕ) (w : List DependencyRef) (a b : DependencyRef)
        → Settled m w
        → In a w
        → rank a < m
        → Reaches children a b
        → Sound b
    Settled-Reaches m w a b h i low (here _) = elim (h.settled a i) [
      | inl done ↦ done.0
      | inr high ↦ absurd (omega arith)
    ]
    Settled-Reaches m w a b h i low (step _ c _ j r) = elim (h.settled a i) [
      | inr high ↦ absurd (omega arith)
      | inl done ↦
          Settled-Reaches m w c b h (All-In (λ y. In y w) c (children a) done.1 j)
            (omega (arith, ranked.falls a c j)) r
    ]
