-- ===== src/Base/Bits/Or.antt =====
-- `bit_or` of fields that do not meet is their sum.
use Prim.Native.Nat.{
  ℕ, zero, suc, ◌+◌, ◌-◌, ◌*◌, ◌/◌, ◌%◌, ◌^◌, ◌≤◌, ◌<◌, max, bit_or, digits, bitwise,
  bit_or-bitwise,
}
use mathlib.Core.Path.{◌≡◌, refl, ap, ◌∙◌}
use native.Mathlib.Nat.{pow-suc, mul-one}
use native.Mathlib.Omega.{arith}

abbrev or_digits : ℕ → ℕ → ℕ → ℕ
or_digits fuel = digits (λ y. y) max fuel

-- One unit of fuel above the first argument is not used, and so on.
or_one_spare : (fuel x y : ℕ) → x ≤ fuel → or_digits (suc fuel) x y ≡ or_digits fuel x y
or_one_spare zero zero y enough = refl
or_one_spare (suc fuel) zero y enough = refl
or_one_spare zero (suc x) y enough = absurd (omega arith)
or_one_spare (suc fuel) (suc x) y enough = rw (or_one_spare fuel (suc x / 2) (y / 2) (omega arith))

or_spare : (extra x y : ℕ) → or_digits (x + extra) x y ≡ or_digits x x y
or_spare zero x y = ap (λ fuel. or_digits fuel x y) (omega arith)
or_spare (suc extra) x y =
    let more : x + suc extra ≡ suc (x + extra) = omega arith in
    ap (λ fuel. or_digits fuel x y) more
    ∙ (or_one_spare (x + extra) x y (omega arith) ∙ or_spare extra x y)

or_digits-half : (x y : ℕ) → or_digits x (suc x / 2) y ≡ or_digits (suc x / 2) (suc x / 2) y
or_digits-half x y =
    let rest : x ≡ suc x / 2 + (x - suc x / 2) = omega arith in
    ap (λ fuel. or_digits fuel (suc x / 2) y) rest ∙ or_spare (x - suc x / 2) (suc x / 2) y

bitwise-max-suc :
    (a b : ℕ)
    → bitwise (λ y. y) max (suc a) b
      ≡ bitwise (λ y. y) max (suc a / 2) (b / 2) * 2 + max (suc a % 2) (b % 2)
bitwise-max-suc a b = omega (arith, or_digits-half a (b / 2))

-- One equation for the lowest digit.
pub or_step : (a b : ℕ) → bit_or a b ≡ bit_or (a / 2) (b / 2) * 2 + max (a % 2) (b % 2)
or_step zero b = simp bit_or-bitwise (omega arith)
or_step (suc a) b =
    omega (arith, bit_or-bitwise (suc a) b, bit_or-bitwise (suc a / 2) (b / 2), bitwise-max-suc a b)

pub zero-or : (b : ℕ) → bit_or 0 b ≡ b
zero-or b = simp bit_or-bitwise refl

or_comm_fuel : (n a b : ℕ) → a ≤ n → b ≤ n → bit_or a b ≡ bit_or b a
or_comm_fuel zero zero zero p q = refl
or_comm_fuel zero (suc a) b p q = absurd (omega arith)
or_comm_fuel zero zero (suc b) p q = absurd (omega arith)
or_comm_fuel (suc n) a b p q =
    omega
      (arith, or_step a b, or_step b a, or_comm_fuel n (a / 2) (b / 2) (omega arith) (omega arith))

pub or-zero : (a : ℕ) → bit_or a 0 ≡ a
or-zero a = or_comm_fuel a a 0 (omega arith) (omega arith) ∙ zero-or a

twice_power : (q k : ℕ) → q * 2 ^ suc k ≡ q * 2 ^ k * 2
twice_power q k = omega (arith, ap (λ (t : ℕ). q * t) (pow-suc 2 k))

-- A field above and a field below.
pub or_fields : (k q r : ℕ) → r < 2 ^ k → bit_or (q * 2 ^ k) r ≡ q * 2 ^ k + r
or_fields zero q r h = let r0 : r ≡ 0 = omega arith in rw (r0, mul-one, or-zero) (omega arith)
or_fields (suc k) q r h = ground (
  arith,
  or_step (q * 2 ^ suc k) r,
  twice_power q k,
  pow-suc 2 k,
  or_fields k q (r / 2) (omega (arith, pow-suc 2 k)),
)
