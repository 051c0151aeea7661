-- ===== src/Shared/Lists.antt =====
-- Lists measured by native numbers, and predicates on lists.
use Prim.Native.Nat.{ℕ, suc, ◌+◌}
use mathlib.Core.Path.{◌≡◌, refl}
use mathlib.Core.List.{List, [], ◌∷◌, ◌++◌}
use mathlib.Core.Logic.{◌⊎◌, ◌↔◌}
use native.Mathlib.Omega.{arith}

module _ {ℓ} {A : Type ℓ} where
  abbrev pub length : List A → ℕ
  length [] = 0
  length (x ∷ xs) = suc (length xs)

  pub length-append : (xs ys : List A) → length (xs ++ ys) ≡ length xs + length ys
  length-append [] ys = omega arith
  length-append (x ∷ xs) ys = omega (arith, length-append xs ys)

-- Each of the list's items satisfies the predicate.
abbrev pub All {ℓ κ} : {Item : Type ℓ} (Holds : Item → Type κ) (items : List Item) → Type κ
All Holds [] = Unit
All Holds (item ∷ rest) = Holds item × All Holds rest

-- `a` is one of the list's items.
abbrev pub In : {A : Type 0} → A → List A → Type 0
In a [] = ⊥
In a (x ∷ xs) = (x ≡ a) ⊎ In a xs

pub All-append {ℓ κ} :
    {Item : Type ℓ} (Holds : Item → Type κ) (xs ys : List Item)
    → All Holds xs
    → All Holds ys
    → All Holds (xs ++ ys)
All-append Holds [] ys _ h = h
All-append Holds (x ∷ xs) ys (p, ps) h = (p, All-append Holds xs ys ps h)

pub append-nil_iff : {A : Type 0} (xs ys : List A) → (xs ++ ys ≡ []) ↔ ((xs ≡ []) × (ys ≡ []))
append-nil_iff [] ys = (λ h. (refl, h), λ h. h.1)
append-nil_iff (x ∷ xs) ys = (λ h. ground (arith, h), λ h. ground (arith, h.0))
