-- ===== src/Float.antt =====
-- Go's float64. The language's type and its operations are a parameter of the model; what the
-- theorems use of IEEE 754 is stated in `FloatLaws`. `Float.Exact` is a concrete instance.
pub mod Exact
use synthetics_operator.Shared.{◌≡◌, Bool, true, false, Option, Bytes, ℤ, ◌≤ℤ◌}

pub record Float64 : Type 1 where
  pub Float : Type 0
  -- float64(n)
  pub of_int : ℤ → Float
  pub add : Float → Float → Float
  pub div : Float → Float → Float
  pub le : Float → Float → Bool
  pub lt : Float → Float → Bool
  pub eq : Float → Float → Bool
  -- strconv.ParseFloat(s, 64)
  pub parse : Bytes → Option Float

-- Each law holds of all float64 values, NaN included: a comparison with NaN is false.
pub record FloatLaws (F : Float64) : Type 0 where
  -- The conversion of int64 to float64 rounds, and rounding is monotone.
  pub le-of_int : (m n : ℤ) → m ≤ℤ n → F.le (F.of_int m) (F.of_int n) ≡ true
  pub le_trans : (a b c : F.Float) → F.le a b ≡ true → F.le b c ≡ true → F.le a c ≡ true
  pub lt-le_trans : (a b c : F.Float) → F.lt a b ≡ true → F.le b c ≡ true → F.lt a c ≡ true
  pub not_le_of_lt : (a b : F.Float) → F.lt a b ≡ true → F.le b a ≡ false
