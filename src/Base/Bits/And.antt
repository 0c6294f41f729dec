-- ===== src/Base/Bits/And.antt =====
-- `bit_and` digit by digit, and under a mask of low bits.
use Prim.Native.Nat.{
  ℕ, zero, suc, ◌+◌, ◌-◌, ◌*◌, ◌/◌, ◌%◌, ◌≤◌, min, bit_and, digits, bitwise, bit_and-bitwise,
}
use mathlib.Core.Path.{◌≡◌, refl, ap, ◌∙◌}
use native.Mathlib.Omega.{arith}

abbrev and_digits : ℕ → ℕ → ℕ → ℕ
and_digits fuel = digits (λ y. zero) min fuel

-- Fuel above the first argument is not used.
and_less_fuel : (fuel x y : ℕ) → x ≤ fuel → and_digits (suc fuel) x y ≡ and_digits fuel x y
and_less_fuel zero zero y enough = refl
and_less_fuel (suc fuel) zero y enough = refl
and_less_fuel zero (suc x) y enough = absurd (omega arith)
and_less_fuel (suc fuel) (suc x) y enough =
    rw (and_less_fuel fuel (suc x / 2) (y / 2) (omega arith))

and_any_fuel : (more x y : ℕ) → and_digits (x + more) x y ≡ and_digits x x y
and_any_fuel zero x y = ap (λ fuel. and_digits fuel x y) (omega arith)
and_any_fuel (suc more) x y =
    let next : x + suc more ≡ suc (x + more) = omega arith in
    ap (λ fuel. and_digits fuel x y) next
    ∙ (and_less_fuel (x + more) x y (omega arith) ∙ and_any_fuel more x y)

and_half : (x y : ℕ) → and_digits x (suc x / 2) y ≡ and_digits (suc x / 2) (suc x / 2) y
and_half x y =
    let rest : x ≡ suc x / 2 + (x - suc x / 2) = omega arith in
    ap (λ fuel. and_digits fuel (suc x / 2) y) rest ∙ and_any_fuel (x - suc x / 2) (suc x / 2) y

and_digit :
    (a b : ℕ)
    → bitwise (λ y. zero) min (suc a) b
      ≡ bitwise (λ y. zero) min (suc a / 2) (b / 2) * 2 + min (suc a % 2) (b % 2)
and_digit a b = omega (arith, and_half a (b / 2))

zero-and : (b : ℕ) → bit_and 0 b ≡ 0
zero-and b = simp bit_and-bitwise refl

-- One equation for the lowest digit.
pub and_step : (a b : ℕ) → bit_and a b ≡ bit_and (a / 2) (b / 2) * 2 + min (a % 2) (b % 2)
and_step zero b = simp bit_and-bitwise (omega arith)
and_step (suc a) b =
    omega (arith, bit_and-bitwise (suc a) b, bit_and-bitwise (suc a / 2) (b / 2), and_digit a b)

and-zero_fuel : (n a : ℕ) → a ≤ n → bit_and a 0 ≡ 0
and-zero_fuel zero zero h = refl
and-zero_fuel zero (suc a) h = absurd (omega arith)
and-zero_fuel (suc n) a h = omega (arith, and_step a 0, and-zero_fuel n (a / 2) (omega arith))

pub and-zero : (a : ℕ) → bit_and a 0 ≡ 0
and-zero a = and-zero_fuel a a (omega arith)

-- The low six bits.
pub and-low_six : (a : ℕ) → bit_and a 63 ≡ a % 64
and-low_six a = omega (
  arith,
  and_step a 63,
  and_step (a / 2) 31,
  and_step (a / 2 / 2) 15,
  and_step (a / 2 / 2 / 2) 7,
  and_step (a / 2 / 2 / 2 / 2) 3,
  and_step (a / 2 / 2 / 2 / 2 / 2) 1,
  and-zero (a / 2 / 2 / 2 / 2 / 2 / 2),
)

-- The low three and the low seven bits.
pub and-low_three : (a : ℕ) → bit_and a 7 ≡ a % 8
and-low_three a =
    omega
      (arith, and_step a 7, and_step (a / 2) 3, and_step (a / 2 / 2) 1, and-zero (a / 2 / 2 / 2))

pub and-low_seven : (a : ℕ) → bit_and a 127 ≡ a % 128
and-low_seven a = omega (arith, and_step a 127, and-low_six (a / 2))

-- One bit.
and-one : (a : ℕ) → bit_and a 1 ≡ a % 2
and-one a = omega (arith, and_step a 1, and-zero (a / 2))

pub and-three : (a : ℕ) → bit_and a 8 ≡ a / 8 % 2 * 8
and-three a =
    omega (arith, and_step a 8, and_step (a / 2) 4, and_step (a / 2 / 2) 2, and-one (a / 2 / 2 / 2))

pub and-four : (a : ℕ) → bit_and a 16 ≡ a / 16 % 2 * 16
and-four a = omega (arith, and_step a 16, and-three (a / 2))

pub and-seven : (a : ℕ) → bit_and a 128 ≡ a / 128 % 2 * 128
and-seven a =
    omega (
      arith,
      and_step a 128,
      and_step (a / 2) 64,
      and_step (a / 2 / 2) 32,
      and-four (a / 2 / 2 / 2),
    )
