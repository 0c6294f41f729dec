-- ===== src/Base/Doubles.antt =====
-- The floating point arithmetic of the machine and of the C library, as a parameter of the models.
pub mod Integers
use Prim.Native.Nat.{ℕ}
use mathlib.Core.Bool.{Bool}
use hpr_readsb.Base.Int.{ℤ}

-- The operations on doubles that the code uses, with no law. A `float` is a double that `to_float`
-- has rounded; `decimal m k` is the constant m / 10 ^ k.
pub record Doubles : Type 1 where
  pub Double : Type 0
  pub isfinite : Double → Bool
  pub less : Double → Double → Bool
  pub at_most : Double → Double → Bool
  pub of_int : ℤ → Double
  pub decimal : ℕ → ℕ → Double
  pub to_float : Double → Double
  pub add : Double → Double → Double
  pub sub : Double → Double → Double
  pub times : Double → Double → Double
  pub over : Double → Double → Double
  pub fmod : Double → Double → Double
  pub pow : Double → Double → Double
  pub exp : Double → Double
  pub sqrt : Double → Double
  pub tan : Double → Double
  pub fabs : Double → Double
  pub llround : Double → ℤ
  pub atan2f : Double → Double → Double
