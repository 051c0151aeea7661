-- ===== src/Float/Exact.antt =====
-- Exact thousandths: an instance of the float64 interface in which every law holds. The parser
-- reads a plain run of decimal digits.
use synthetics_operator.Shared.{
  ℕ, ◌+◌, ◌-◌, ◌*◌, ◌/◌, ◌≡◌, true, ◌&&◌, Option, none, some, [], ◌∷◌, arith, leb, if◌then◌else◌,
  Bytes, ℤ, pos, negsuc, ◌+ℤ◌, ltb_ℤ, leb_ℤ, ◌≤ℤ◌,
}
use synthetics_operator.Float.{Float64, FloatLaws}

abbrev scale : ℤ → ℤ
scale (pos n) = pos (n * 1000)
scale (negsuc n) = negsuc (n * 1000 + 999)

abbrev pub quotient : ℤ → ℤ → ℤ
quotient (pos a) (pos b) = pos (a * 1000 / b)
quotient a b = a

unfoldable pub digits : ℕ → Bytes → Option ℤ
digits n [] = some (pos (n * 1000))
digits n (c ∷ s) = if leb b'0' c && leb c b'9' then digits (n * 10 + (c - b'0')) s else none

unfoldable pub number : Bytes → Option ℤ
unfolding digits
number [] = none
number (c ∷ s) = digits 0 (c ∷ s)

abbrev pub exact : Float64
exact = record {
  Float = ℤ;
  of_int = scale;
  add = ◌+ℤ◌;
  div = quotient;
  le = leb_ℤ;
  lt = ltb_ℤ;
  eq = λ a b. leb_ℤ a b && leb_ℤ b a;
  parse = number;
}

le-scale : (m n : ℤ) → m ≤ℤ n → leb_ℤ (scale m) (scale n) ≡ true
le-scale (pos m) (pos n) h = ground arith
le-scale (pos m) (negsuc n) h = ground arith
le-scale (negsuc m) (pos n) h = ground arith
le-scale (negsuc m) (negsuc n) h = ground arith

exact-FloatLaws : FloatLaws exact
exact-FloatLaws = record {
  le-of_int = le-scale;
  le_trans = λ a b c. ground arith;
  lt-le_trans = λ a b c. ground arith;
  not_le_of_lt = λ a b. ground arith;
}
