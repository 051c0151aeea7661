-- ===== src/Shared/Graph.antt =====
-- Depth-first search over a graph of dependencies: what a walk with a visited set has explored.
use mathlib.Core.Path.{◌≡◌, refl}
use mathlib.Core.Bool.{Bool, true, false, ◌||◌}
use mathlib.Core.Logic.{◌⊎◌, inl, inr}
use mathlib.Core.List.{List, [], ◌∷◌}
use native.Mathlib.Omega.{arith}
use synthetics_operator.Shared.Keys.{Eq, ◌==◌}
use synthetics_operator.Shared.Lists.{All, In}

-- `visited[key]` of a Go map from keys to true, as the list of its keys.
module _ {K : Type 0} ⦃e : Eq K⦄ where
  unfoldable pub member : K → List K → Bool
  member k [] = false
  member k (j ∷ js) = j == k || member k js

  pub In-member : (k : K) (js : List K) → member k js ≡ true → In k js
  unfolding member
  In-member k (j ∷ js) h = ground (arith, e.beq_iff j k, In-member k js)
  In-member k [] h = ground arith

  pub member-In : (k : K) (js : List K) → In k js → member k js ≡ true
  unfolding member
  member-In k (j ∷ js) h = ground (arith, e.beq_iff j k, member-In k js)
  member-In k [] h = elim h [ ]

pub All-In : {K : Type 0} (P : K → Type 0) (k : K) (ks : List K) → All P ks → In k ks → P k
All-In P k (j ∷ js) (p, ps) (inl h) = rw (← h) p
All-In P k (j ∷ js) (p, ps) (inr h) = All-In P k js ps h
All-In P k [] h i = elim i [ ]

pub All-map :
    {K : Type 0} {P Q : K → Type 0} (ks : List K) → ((k : K) → P k → Q k) → All P ks → All Q ks
All-map [] f h = tt
All-map (k ∷ ks) f (p, ps) = (f k p, All-map ks f ps)

module _ {K : Type 0} (children : K → List K) where
  -- `b` can be reached from `a`, along any number of edges.
  pub data Reaches : K → K → Type 0 where
    here : (a : K) → Reaches a a
    step : (a b c : K) → In b (children a) → Reaches b c → Reaches a c

  module _ (Good : K → Type 0) where
    -- `x` is good and its children are in `v`.
    abbrev pub Done : List K → K → Type 0
    Done v x = Good x × All (λ y. In y v) (children x)

    -- A walk from `ks` that found nothing has taken the visited set from `v` to `w`.
    pub record Explored (v : List K) (ks : List K) (w : List K) : Type 0 where
      pub grows : (x : K) → In x v → In x w
      pub covers : All (λ k. In k w) ks
      pub closed : (x : K) → In x w → In x v ⊎ Done w x

    pub Explored-nil : (v : List K) → Explored v [] v
    Explored-nil v = record { grows = λ x i. i; covers = tt; closed = λ x i. inl i }

    pub Explored-skip : (k : K) (v : List K) → In k v → Explored v (k ∷ []) v
    Explored-skip k v h = record { grows = λ x i. i; covers = (h, tt); closed = λ x i. inl i }

    pub Explored-node :
        (k : K) (v w : List K) → Good k → Explored (k ∷ v) (children k) w → Explored v (k ∷ []) w
    Explored-node k v w g h = record {
      grows = λ x i. h.grows x (inr i);
      covers = (h.grows k (inl refl), tt);
      closed = λ x i. elim (h.closed x i) [
        | inl (inl same) ↦ inr (rw (← same) (g, h.covers))
        | inl (inr old) ↦ inl old
        | inr done ↦ inr done
      ];
    }

    Done-grows : (v w : List K) (x : K) → ((y : K) → In y v → In y w) → Done v x → Done w x
    Done-grows v w x f (g, c) = (g, All-map (children x) f c)

    pub Explored-cons :
        (k : K) (ks v u w : List K)
        → Explored v (k ∷ []) u
        → Explored u ks w
        → Explored v (k ∷ ks) w
    Explored-cons k ks v u w h t = record {
      grows = λ x i. t.grows x (h.grows x i);
      covers = (t.grows k h.covers.0, t.covers);
      closed = λ x i. elim (t.closed x i) [
        | inr done ↦ inr done
        | inl old ↦ elim (h.closed x old) [
          | inl older ↦ inl older
          | inr done ↦ inr (Done-grows u w x t.grows done)
        ]
      ];
    }

    -- The set that a walk from nothing has visited holds all that can be reached, and all is good.
    reaches_closed :
        (w : List K) (a b : K) → ((x : K) → In x w → Done w x) → In a w → Reaches a b → Good b
    reaches_closed w a b f i (here _) = (f a i).0
    reaches_closed w a b f i (step _ c _ j r) =
        reaches_closed w c b f (All-In (λ y. In y w) c (children a) (f a i).1 j) r

    pub Explored-Reaches :
        (ks w : List K) (a b : K) → Explored [] ks w → In a ks → Reaches a b → Good b
    Explored-Reaches ks w a b h i r =
        reaches_closed w a b
          (λ x j. elim (h.closed x j) [ inl none_yet ↦ absurd none_yet | inr done ↦ done ])
          (All-In (λ y. In y w) a ks h.covers i) r
