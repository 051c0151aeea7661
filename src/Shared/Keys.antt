-- ===== src/Shared/Keys.antt =====
-- Go's comparable types: an equality test with its law, and one operator for all of them.
use text.Mathlib.TextEquality.{eq_iff}
use Prim.Native.Nat.{ℕ, compare, Ordering}
use Prim.Native.String.{String}
use mathlib.Core.Path.{◌≡◌, refl}
use mathlib.Core.Logic.{◌↔◌, ◌≢◌, inl, inr}
use synthetics_operator.Shared.Tests.{Bool-cases}
use mathlib.Core.Bool.{Bool, true, false, ◌&&◌}
use mathlib.Core.List.{List, [], ◌∷◌}
use native.Mathlib.Omega.{arith}
use text.Mathlib.Text.{◌==◌ as str_eq}
use Prim.Native.Char.{code}

pub record Eq {ℓ} (Key : Type ℓ) : Type ℓ where
  pub beq : (k j : Key) → Bool
  pub beq_iff : (k j : Key) → (beq k j ≡ true) ↔ (k ≡ j)

infix 50 ◌==◌
abbrev pub ◌==◌ {ℓ} : {Key : Type ℓ} ⦃e : Eq Key⦄ (k j : Key) → Bool
◌==◌ ⦃e⦄ k j = e.beq k j

pub beq_refl {ℓ} : {A : Type ℓ} ⦃e : Eq A⦄ (a : A) → (a == a) ≡ true
beq_refl ⦃e⦄ a = (e.beq_iff a a).1 refl

pub beq_ne {ℓ} : {A : Type ℓ} ⦃e : Eq A⦄ (a b : A) → a ≢ b → (a == b) ≡ false
beq_ne ⦃e⦄ a b h = elim (Bool-cases (a == b)) [
  | inl same ↦ absurd (h ((e.beq_iff a b).0 same))
  | inr other ↦ other
]

abbrev pub nat_beq : ℕ → ℕ → Bool
nat_beq a b = elim (compare a b) [ Ordering.eq ↦ true | _ ↦ false ]

pub nat_beq_iff : (a b : ℕ) → (nat_beq a b ≡ true) ↔ (a ≡ b)
nat_beq_iff a b = ground arith

instance abbrev pub nat_eq : Eq ℕ
nat_eq = record { beq = nat_beq; beq_iff = nat_beq_iff }

pub str_beq_iff : (s t : String) → (str_eq s t ≡ true) ↔ (s ≡ t)
str_beq_iff s t = eq_iff s t

instance abbrev pub string_eq : Eq String
string_eq = record { beq = str_eq; beq_iff = str_beq_iff }

-- A Go string that the program walks is the list of its bytes.
abbrev pub Bytes : Type 0
Bytes = List ℕ

-- The bytes of an ASCII literal.
abbrev pub codes : String → Bytes
codes String.[] = []
codes (String.◌∷◌ first rest) = code first ∷ codes rest

unfoldable pub bytes_beq : Bytes → Bytes → Bool
bytes_beq [] [] = true
bytes_beq [] (_ ∷ _) = false
bytes_beq (_ ∷ _) [] = false
bytes_beq (a ∷ s) (b ∷ t) = nat_beq a b && bytes_beq s t

pub bytes_beq_iff : (s t : Bytes) → (bytes_beq s t ≡ true) ↔ (s ≡ t)
unfolding bytes_beq
bytes_beq_iff [] [] = (λ _. refl, λ _. refl)
bytes_beq_iff [] (_ ∷ _) = ground arith
bytes_beq_iff (_ ∷ _) [] = ground arith
bytes_beq_iff (a ∷ s) (b ∷ t) = ground (arith, bytes_beq_iff s t)

instance abbrev pub bytes_eq : Eq Bytes
bytes_eq = record { beq = bytes_beq; beq_iff = bytes_beq_iff }
