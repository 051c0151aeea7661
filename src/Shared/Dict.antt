-- ===== src/Shared/Dict.antt =====
-- A Go map as an association list. `lookup` is `m[k]` with its `ok`, `insert` is `m[k] = v`, and
-- `erase` is `delete(m, k)`. A key stands once if the map is built by these operations.
use mathlib.Core.Path.{◌≡◌, refl}
use mathlib.Core.Option.{Option, none, some}
use mathlib.Core.List.{List, [], ◌∷◌}
use native.Mathlib.Omega.{arith}
use synthetics_operator.Shared.Tests.{if◌then◌else◌}
use mathlib.Core.Logic.{◌≢◌}
use synthetics_operator.Shared.Keys.{Eq, ◌==◌, beq_refl, beq_ne}

abbrev pub Dict {ℓ κ} : Type ℓ → Type κ → Type (ℓ ⊔ κ)
Dict K V = List (K × V)

module _ {ℓ κ} {K : Type ℓ} {V : Type κ} ⦃e : Eq K⦄ where
  unfoldable pub lookup : (wanted : K) (entries : Dict K V) → Option V
  lookup wanted [] = none
  lookup wanted ((key, value) ∷ rest) = if key == wanted then some value else lookup wanted rest

  -- The entry keeps its place where the key is there already.
  unfoldable pub insert : (key : K) (value : V) (entries : Dict K V) → Dict K V
  insert key value [] = (key, value) ∷ []
  insert key value (first ∷ rest) =
      let below = insert key value rest in
      if first.0 == key then (key, value) ∷ rest else first ∷ below

  unfoldable pub erase : K → Dict K V → Dict K V
  erase k [] = []
  erase k ((j, w) ∷ m) = let rest = erase k m in if j == k then rest else (j, w) ∷ rest

  pub lookup-insert :
      (key wanted : K) (value : V) (entries : Dict K V)
      → lookup wanted (insert key value entries)
        ≡ (if key == wanted then some value else lookup wanted entries)
  unfolding lookup insert
  lookup-insert key wanted value [] = refl
  lookup-insert key wanted value (first ∷ rest) = ground (
    arith,
    lookup-insert key wanted value rest,
    e.beq_iff first.0 key,
    e.beq_iff first.0 wanted,
    e.beq_iff key wanted,
  )

  pub lookup-erase :
      (k j : K) (m : Dict K V) → lookup j (erase k m) ≡ (if k == j then none else lookup j m)
  unfolding lookup erase
  lookup-erase k j [] = ground arith
  lookup-erase k j ((i, v) ∷ m) =
      ground (arith, lookup-erase k j m, e.beq_iff i k, e.beq_iff i j, e.beq_iff k j)

  pub lookup-insert_self :
      (key : K) (value : V) (entries : Dict K V)
      → lookup key (insert key value entries) ≡ some value
  lookup-insert_self key value entries = rw (lookup-insert key key value entries, beq_refl key)

  pub lookup-insert_ne :
      (k j : K) (v : V) (m : Dict K V) → k ≢ j → lookup j (insert k v m) ≡ lookup j m
  lookup-insert_ne k j v m h = rw (lookup-insert k j v m, beq_ne k j h)

  pub lookup-erase_self : (k : K) (m : Dict K V) → lookup k (erase k m) ≡ none
  lookup-erase_self k m = rw (lookup-erase k k m, beq_refl k)

  pub lookup-erase_ne : (k j : K) (m : Dict K V) → k ≢ j → lookup j (erase k m) ≡ lookup j m
  lookup-erase_ne k j m h = rw (lookup-erase k j m, beq_ne k j h)

  pub insert-insert : (k : K) (v w : V) (m : Dict K V) → insert k v (insert k w m) ≡ insert k v m
  unfolding insert
  insert-insert k v w [] = simp beq_refl
  insert-insert k v w ((i, u) ∷ m) =
      ground (arith, insert-insert k v w m, e.beq_iff i k, e.beq_iff k k)

  pub erase-erase : (k : K) (m : Dict K V) → erase k (erase k m) ≡ erase k m
  unfolding erase
  erase-erase k [] = refl
  erase-erase k ((i, u) ∷ m) = ground (arith, erase-erase k m, e.beq_iff i k)

pub ruleset dict_laws = (lookup-insert, lookup-erase, beq_refl)
