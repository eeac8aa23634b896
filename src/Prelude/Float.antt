-- ===== src/Prelude/Float.antt =====
-- float64. The type and its operations are a parameter: an instance argument `Float R`. The laws that
-- a theorem relies on are those of IEEE 754, NaN included, and stand in `FloatLaws`.
use mathlib.Core.Path.{◌≡◌}
use mathlib.Core.Bool.{Bool, true, false}
use Prim.Native.Nat.{ℕ}
use Prim.Native.String.{String}
use vpp_lab.Prelude.Int.{ℤ}

pub record Float (R : Type 0) : Type 0 where
  -- The literal m / 10^e, rounded to the nearest float64.
  pub decimal : ℕ → ℕ → R
  -- float64(i) and int(v)
  pub of_int : ℤ → R
  pub to_int : R → ℤ
  pub add : R → R → R
  pub sub : R → R → R
  pub mul : R → R → R
  pub div : R → R → R
  pub neg : R → R
  -- `<`, `<=` and `==`; each is false where an operand is NaN.
  pub lt : R → R → Bool
  pub le : R → R → Bool
  pub eq : R → R → Bool
  -- math.Max, math.Min, math.Abs, math.Round, math.Sin, math.Pi
  pub max : R → R → R
  pub min : R → R → R
  pub abs : R → R
  pub round : R → R
  pub sin : R → R
  pub pi : R
  -- "%.2f"
  pub format : R → String
  -- "%.6f"
  pub format_6 : R → String
  -- "%.0f"
  pub format_0 : R → String

pub record FloatLaws {R : Type 0} (F : Float R) : Type 0 where
  pub lt_irrefl : (a : R) → F.lt a a ≡ false
  pub lt_trans : (a b c : R) → F.lt a b ≡ true → F.lt b c ≡ true → F.lt a c ≡ true
  pub le-of-lt : (a b : R) → F.lt a b ≡ true → F.le a b ≡ true
  pub not-lt-of-le : (a b : R) → F.le a b ≡ true → F.lt b a ≡ false
  -- math.Min is NaN where an operand is, and else no more than either.
  pub not-lt-min : (a b : R) → F.lt a (F.min a b) ≡ false
