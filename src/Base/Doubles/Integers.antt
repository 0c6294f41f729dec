-- ===== src/Base/Doubles/Integers.antt =====
-- Integers for the doubles, to evaluate definitions in tests.
use Prim.Native.Nat.{ℕ, ◌+◌, ◌-◌, ◌*◌, ◌/◌, ◌%◌, ◌^◌}
use mathlib.Core.Bool.{true, not}
use hpr_readsb.Base.Int.{ℤ, pos, negsuc, ltb_ℤ}
use hpr_readsb.Base.Doubles.{Doubles}

-- An operation on the values of two integers that are not negative, 0 for others.
abbrev on_values : (ℕ → ℕ → ℕ) → ℤ → ℤ → ℤ
on_values f (pos a) (pos b) = pos (f a b)
on_values f (pos a) (negsuc b) = pos 0
on_values f (negsuc a) b = pos 0

abbrev pub integers : Doubles
integers = record {
  Double = ℤ;
  isfinite = λ x. true;
  less = ltb_ℤ;
  at_most = λ x y. not (ltb_ℤ y x);
  decimal = λ m k. pos (m / 10 ^ k);
  to_float = λ x. x;
  sub = on_values (λ a b. a - b);
  pow = on_values (λ a b. a ^ b);
  exp = λ x. x;
  sqrt = λ x. x;
  tan = λ x. x;
  fabs = λ x. x;
  atan2f = λ x y. x;
  of_int = λ x. x;
  add = on_values (λ a b. a + b);
  times = on_values (λ a b. a * b);
  over = on_values (λ a b. a / b);
  fmod = on_values (λ a b. a % b);
  llround = λ x. x;
}
