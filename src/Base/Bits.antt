-- ===== src/Base/Bits.antt =====
-- Laws of `bit_xor` at every width, from the recursion on binary digits.
pub mod Or
pub mod And
use Prim.Native.Nat.{
  ℕ, zero, suc, ◌+◌, ◌-◌, ◌*◌, ◌/◌, ◌%◌, ◌^◌, ◌≤◌, ◌<◌, differ, bit_xor, digits, bitwise,
  bit_xor-bitwise,
}
use mathlib.Core.Path.{◌≡◌, refl, sym, ap, ap₂, ◌∙◌, ◌≡⟨◌⟩◌, ◌∎}
use native.Mathlib.Nat.{
  pow-suc, pow-succ', mul-one, div-one, mod-one, div-add-mod, div-div-eq-div-mul,
}
use mathlib.Core.WellFounded.{Acc, WellFounded}
use native.Mathlib.Omega.{arith}

acc_below : (k n : ℕ) → n < k → Acc ◌<◌ n
acc_below zero n h = absurd (omega arith)
acc_below (suc k) n h = Acc.intro n (λ m m<n. acc_below k m (omega arith))

pub lt_wf : WellFounded ◌<◌
lt_wf = record { apply = λ n. acc_below (suc n) n (omega arith) }

-- The digit by digit exclusive or, with fuel.
abbrev xor_digits : ℕ → ℕ → ℕ → ℕ
xor_digits fuel = digits (λ y. y) differ fuel

-- One unit of fuel above the first argument is not used.
one_spare : (fuel x y : ℕ) → x ≤ fuel → xor_digits (suc fuel) x y ≡ xor_digits fuel x y
one_spare zero zero y enough = refl
one_spare (suc fuel) zero y enough = refl
one_spare zero (suc x) y enough = absurd (omega arith)
one_spare (suc fuel) (suc x) y enough = rw (one_spare fuel (suc x / 2) (y / 2) (omega arith))

-- Nor are `extra` units.
spare : (extra x y : ℕ) → xor_digits (x + extra) x y ≡ xor_digits x x y
spare zero x y = ap (λ fuel. xor_digits fuel x y) (omega arith)
spare (suc extra) x y =
    let more : x + suc extra ≡ suc (x + extra) = omega arith in
    ap (λ fuel. xor_digits fuel x y) more
    ∙ (one_spare (x + extra) x y (omega arith) ∙ spare extra x y)

xor_digits-half : (x y : ℕ) → xor_digits x (suc x / 2) y ≡ xor_digits (suc x / 2) (suc x / 2) y
xor_digits-half x y =
    let rest : x ≡ suc x / 2 + (x - suc x / 2) = omega arith in
    ap (λ fuel. xor_digits fuel (suc x / 2) y) rest ∙ spare (x - suc x / 2) (suc x / 2) y

bitwise-suc :
    (a b : ℕ)
    → bitwise (λ y. y) differ (suc a) b
      ≡ bitwise (λ y. y) differ (suc a / 2) (b / 2) * 2 + differ (suc a % 2) (b % 2)
bitwise-suc a b = omega (arith, xor_digits-half a (b / 2))

differ-mod : (a b : ℕ) → a < 2 → b < 2 → differ a b ≡ (a + b) % 2
differ-mod zero b p q = omega arith
differ-mod (suc zero) zero p q = refl
differ-mod (suc zero) (suc zero) p q = refl
differ-mod (suc zero) (suc (suc b)) p q = absurd (omega arith)
differ-mod (suc (suc a)) b p q = absurd (omega arith)

-- One equation for the lowest digit.
pub xor_step : (a b : ℕ) → bit_xor a b ≡ bit_xor (a / 2) (b / 2) * 2 + (a % 2 + b % 2) % 2
xor_step zero b = simp bit_xor-bitwise (omega arith)
xor_step (suc a) b = omega (
  arith,
  bit_xor-bitwise (suc a) b,
  bit_xor-bitwise (suc a / 2) (b / 2),
  bitwise-suc a b,
  differ-mod (suc a % 2) (b % 2) (omega arith) (omega arith),
)

-- The lowest digit and the rest of an exclusive or.
pub xor-half : (a b : ℕ) → bit_xor a b / 2 ≡ bit_xor (a / 2) (b / 2)
xor-half a b = omega (arith, xor_step a b)

pub xor-parity : (a b : ℕ) → bit_xor a b % 2 ≡ (a % 2 + b % 2) % 2
xor-parity a b = omega (arith, xor_step a b)

-- Two numbers with the same lowest digit and the same rest are equal.
pub eq_of_half : (a b : ℕ) → a / 2 ≡ b / 2 → a % 2 ≡ b % 2 → a ≡ b
eq_of_half a b p q = omega arith

comm_fuel : (n a b : ℕ) → a ≤ n → b ≤ n → bit_xor a b ≡ bit_xor b a
comm_fuel zero zero zero p q = refl
comm_fuel zero (suc a) b p q = absurd (omega arith)
comm_fuel zero zero (suc b) p q = absurd (omega arith)
comm_fuel (suc n) a b p q =
    omega
      (arith, xor_step a b, xor_step b a, comm_fuel n (a / 2) (b / 2) (omega arith) (omega arith))

pub xor_comm : (a b : ℕ) → bit_xor a b ≡ bit_xor b a
xor_comm a b = comm_fuel (a + b) a b (omega arith) (omega arith)

assoc_fuel :
    (n a b c : ℕ) → a ≤ n → b ≤ n → c ≤ n → bit_xor (bit_xor a b) c ≡ bit_xor a (bit_xor b c)
assoc_fuel zero zero zero zero p q r = refl
assoc_fuel zero (suc a) b c p q r = absurd (omega arith)
assoc_fuel zero zero (suc b) c p q r = absurd (omega arith)
assoc_fuel zero zero zero (suc c) p q r = absurd (omega arith)
assoc_fuel (suc n) a b c p q r =
    eq_of_half _ _
      (simp xor-half
        (assoc_fuel n (a / 2) (b / 2) (c / 2) (omega arith) (omega arith) (omega arith)))
      (simp xor-parity (omega arith))

pub xor_assoc : (a b c : ℕ) → bit_xor (bit_xor a b) c ≡ bit_xor a (bit_xor b c)
xor_assoc a b c = assoc_fuel (a + b + c) a b c (omega arith) (omega arith) (omega arith)

self_fuel : (n a : ℕ) → a ≤ n → bit_xor a a ≡ 0
self_fuel zero zero p = refl
self_fuel zero (suc a) p = absurd (omega arith)
self_fuel (suc n) a p = omega (arith, xor_step a a, self_fuel n (a / 2) (omega arith))

pub xor_self : (a : ℕ) → bit_xor a a ≡ 0
xor_self a = self_fuel a a (omega arith)

pub zero-xor : (b : ℕ) → bit_xor 0 b ≡ b
zero-xor b = simp bit_xor-bitwise refl

pub xor-zero : (a : ℕ) → bit_xor a 0 ≡ a
xor-zero a = xor_comm a 0 ∙ zero-xor a

pub xor_cancel : (a b : ℕ) → bit_xor a (bit_xor a b) ≡ b
xor_cancel a b = sym (xor_assoc a a b) ∙ (ap (λ t. bit_xor t b) (xor_self a) ∙ zero-xor b)

-- Regrouping of two sums.
pub xor_interchange :
    (a b c d : ℕ) → bit_xor (bit_xor a b) (bit_xor c d) ≡ bit_xor (bit_xor a c) (bit_xor b d)
xor_interchange a b c d =
    bit_xor (bit_xor a b) (bit_xor c d)
    ≡⟨ xor_assoc a b (bit_xor c d) ⟩ bit_xor a (bit_xor b (bit_xor c d))
    ≡⟨ ap (bit_xor a) (sym (xor_assoc b c d)) ⟩ bit_xor a (bit_xor (bit_xor b c) d)
    ≡⟨ ap (λ t. bit_xor a (bit_xor t d)) (xor_comm b c) ⟩ bit_xor a (bit_xor (bit_xor c b) d)
    ≡⟨ ap (bit_xor a) (xor_assoc c b d) ⟩ bit_xor a (bit_xor c (bit_xor b d))
    ≡⟨ sym (xor_assoc a c (bit_xor b d)) ⟩ bit_xor (bit_xor a c) (bit_xor b d) ∎

xor-double : (a b : ℕ) → bit_xor (a * 2) (b * 2) ≡ bit_xor a b * 2
xor-double a b =
    eq_of_half _ _
      (xor-half (a * 2) (b * 2)
        ∙ (ap₂ bit_xor (half_double a) (half_double b) ∙ sym (half_double (bit_xor a b))))
      (rw xor-parity (omega arith))
  where
    half_double : (n : ℕ) → n * 2 / 2 ≡ n
    half_double n = omega arith

mul_pow_suc : (n k : ℕ) → n * 2 ^ suc k ≡ n * 2 ^ k * 2
mul_pow_suc n k = omega (arith, ap (λ (t : ℕ). n * t) (pow-suc 2 k))

div_pow_suc : (n k : ℕ) → n / 2 ^ suc k ≡ n / 2 / 2 ^ k
div_pow_suc n k = ap (λ t. n / t) (pow-succ' 2 k) ∙ sym (div-div-eq-div-mul n 2 (2 ^ k))

-- The remainder by `2 ^ suc k`, from the remainder of the half by `2 ^ k`.
mod_pow_suc : (n k : ℕ) → n % 2 ^ suc k ≡ n / 2 % 2 ^ k * 2 + n % 2
mod_pow_suc n k = omega (
  arith,
  div-add-mod n (2 ^ suc k),
  div-add-mod (n / 2) (2 ^ k),
  ap (λ (t : ℕ). 2 ^ suc k * t) (div_pow_suc n k),
  ap (λ (t : ℕ). t * (n / 2 / 2 ^ k)) (pow-suc 2 k),
)

mod_pow_half : (n k : ℕ) → n % 2 ^ suc k / 2 ≡ n / 2 % 2 ^ k
mod_pow_half n k = omega (arith, mod_pow_suc n k)

mod_pow_parity : (n k : ℕ) → n % 2 ^ suc k % 2 ≡ n % 2
mod_pow_parity n k = omega (arith, mod_pow_suc n k)

-- Shifts, masks and bounds, at every width.
pub xor-shl : (k a b : ℕ) → bit_xor (a * 2 ^ k) (b * 2 ^ k) ≡ bit_xor a b * 2 ^ k
xor-shl zero a b = simp mul-one refl
xor-shl (suc k) a b = simp (mul_pow_suc, xor-double, xor-shl k a b) refl

pub xor-shr : (k a b : ℕ) → bit_xor a b / 2 ^ k ≡ bit_xor (a / 2 ^ k) (b / 2 ^ k)
xor-shr zero a b = simp div-one refl
xor-shr (suc k) a b = simp (div_pow_suc, xor-half, xor-shr k (a / 2) (b / 2)) refl

pub xor-lt : (k a b : ℕ) → a < 2 ^ k → b < 2 ^ k → bit_xor a b < 2 ^ k
xor-lt zero a b p q = rw (below_one a p, below_one b q) (omega arith)
  where
    below_one : (n : ℕ) → n < 2 ^ 0 → n ≡ 0
    below_one n h = omega arith
xor-lt (suc k) a b p q = omega (
  arith,
  pow-suc 2 k,
  xor_step a b,
  xor-lt k (a / 2) (b / 2) (omega (arith, pow-suc 2 k)) (omega (arith, pow-suc 2 k)),
)

pub xor-mod : (k a b : ℕ) → bit_xor a b % 2 ^ k ≡ bit_xor (a % 2 ^ k) (b % 2 ^ k)
xor-mod zero a b = simp mod-one refl
xor-mod (suc k) a b =
    eq_of_half _ _ (simp (mod_pow_half, xor-half) (xor-mod k (a / 2) (b / 2)))
      (simp (mod_pow_parity, xor-parity) (omega arith))

-- A field above and a field below do not meet: their exclusive or is their sum.
pub xor_fields : (k q r : ℕ) → r < 2 ^ k → bit_xor (q * 2 ^ k) r ≡ q * 2 ^ k + r
xor_fields zero q r h = let r0 : r ≡ 0 = omega arith in rw (r0, mul-one, xor-zero) (omega arith)
xor_fields (suc k) q r h = ground (
  arith,
  xor_step (q * 2 ^ suc k) r,
  mul_pow_suc q k,
  pow-suc 2 k,
  xor_fields k q (r / 2) (omega (arith, pow-suc 2 k)),
)
