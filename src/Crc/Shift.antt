-- ===== src/Crc/Shift.antt =====
-- The register of the parity check as a polynomial of degree below 24: a shift multiplies it by x,
-- and the table holds products by x ^ 8.
use hpr_readsb.Base.{ℕ, zero, suc, ◌+◌, ◌-◌, ◌*◌, ◌/◌, ◌%◌, ◌^◌, ◌≤◌, ◌<◌, bit_xor, arith}
use hpr_readsb.Base.{◌≡◌, refl, sym, ap, ap₂, ◌∙◌}
use hpr_readsb.Base.Bits.{xor-mod, xor_fields, xor_assoc, xor_comm}
use native.Mathlib.Nat.{pow-suc, one-le-pow, mod-eq_of_lt}
use hpr_readsb.Crc.{generator_poly, crc_shift, crc_rounds, crc_table, crc_byte}
use hpr_readsb.Crc.Linear.{crc_shift-xor, crc_table-xor}

-- Multiplication by x.
pub mulx : ℕ → ℕ
mulx c = crc_shift c % 2 ^ 24

-- Multiplication by x ^ k.
unfoldable pub mulx_times : ℕ → ℕ → ℕ
mulx_times zero c = c
mulx_times (suc k) c = mulx_times k (mulx c)

pub mulx-lt : (c : ℕ) → mulx c < 2 ^ 24
unfolding mulx
mulx-lt c = omega arith

pub mulx_times-lt : (k c : ℕ) → c < 2 ^ 24 → mulx_times k c < 2 ^ 24
unfolding mulx_times
mulx_times-lt zero c h = h
mulx_times-lt (suc k) c h = mulx_times-lt k (mulx c) (mulx-lt c)

pub mulx-xor : (a b : ℕ) → mulx (bit_xor a b) ≡ bit_xor (mulx a) (mulx b)
unfolding mulx
mulx-xor a b = ap (λ t. t % 2 ^ 24) (crc_shift-xor a b) ∙ xor-mod 24 (crc_shift a) (crc_shift b)

pub mulx_times-xor :
    (k a b : ℕ) → mulx_times k (bit_xor a b) ≡ bit_xor (mulx_times k a) (mulx_times k b)
unfolding mulx_times
mulx_times-xor zero a b = refl
mulx_times-xor (suc k) a b = rw (mulx-xor a b) (mulx_times-xor k (mulx a) (mulx b))

pub mulx_times-add : (j k c : ℕ) → mulx_times j (mulx_times k c) ≡ mulx_times (k + j) c
unfolding mulx_times
mulx_times-add j zero c = let e : 0 + j ≡ j = omega arith in rw e
mulx_times-add j (suc k) c =
    let e : suc k + j ≡ suc (k + j) = omega arith in rw e (mulx_times-add j k (mulx c))

-- Below the top bit a shift is a doubling.
pub mulx_small : (c : ℕ) → c < 2 ^ 23 → mulx c ≡ c * 2
unfolding mulx crc_shift
mulx_small c h = ground arith

-- With it the generator comes off.
pub mulx_top : (c : ℕ) → c < 2 ^ 24 → 2 ^ 23 ≤ c → mulx c ≡ bit_xor (c * 2 - 2 ^ 24) generator_poly
unfolding mulx crc_shift
mulx_top c h top = ground (arith, xor-mod 24 (c * 2 % 2 ^ 32) generator_poly)

pub mulx_times_small : (k c : ℕ) → c * 2 ^ k < 2 ^ 24 → mulx_times k c ≡ c * 2 ^ k
unfolding mulx_times
mulx_times_small zero c h = omega arith
mulx_times_small (suc k) c h =
    rw (mulx_small c (fits k c h), mulx_times_small k (c * 2) (rw (shifted k c) at h))
      (sym (shifted k c))
  where
    shifted : (k c : ℕ) → c * 2 ^ suc k ≡ c * 2 * 2 ^ k
    shifted k c = omega (arith, ap (λ (t : ℕ). c * t) (pow-suc 2 k))

    fits : (k c : ℕ) → c * 2 ^ suc k < 2 ^ 24 → c < 2 ^ 23
    fits k c h = grind (arith, pow-suc 2 k, one-le-pow k 2, shifted k c)

-- The bits above 24 do not come back.
crc_shift_low : (c : ℕ) → crc_shift c % 2 ^ 24 ≡ mulx (c % 2 ^ 24)
unfolding crc_shift mulx
crc_shift_low c = ground (
  arith,
  xor-mod 24 (c * 2 % 2 ^ 32) generator_poly,
  xor-mod 24 (c % 2 ^ 24 * 2 % 2 ^ 32) generator_poly,
)

crc_rounds_low : (j c : ℕ) → crc_rounds j c % 2 ^ 24 ≡ mulx_times j (c % 2 ^ 24)
unfolding crc_rounds mulx_times
crc_rounds_low zero c = refl
crc_rounds_low (suc j) c = crc_rounds_low j (crc_shift c) ∙ ap (mulx_times j) (crc_shift_low c)

pub crc_table-lt : (i : ℕ) → crc_table i < 2 ^ 24
unfolding crc_table
crc_table-lt i = omega arith

crc_table_lem : (i : ℕ) → i < 256 → crc_table i ≡ mulx_times 8 (i * 2 ^ 16)
unfolding crc_table
crc_table_lem i h =
    crc_rounds_low 8 (i * 2 ^ 16)
    ∙ ap (mulx_times 8) (let e : i * 2 ^ 16 % 2 ^ 24 ≡ i * 2 ^ 16 = omega arith in e)

xor_rotate : (a m h : ℕ) → bit_xor a (bit_xor m h) ≡ bit_xor (bit_xor h a) m
xor_rotate a m h = sym (xor_assoc a m h) ∙ (xor_comm (bit_xor a m) h ∙ sym (xor_assoc h a m))

-- The two halves of a pass: the table takes the top byte, and the low 16 bits move up.
low_half : (r : ℕ) → r * 2 ^ 8 % 2 ^ 32 % 2 ^ 24 ≡ r % 2 ^ 16 * 2 ^ 8
low_half r = omega arith

halves : (r : ℕ) → r < 2 ^ 24 → bit_xor (r / 2 ^ 16 % 2 ^ 8 * 2 ^ 16) (r % 2 ^ 16) ≡ r
halves r h = omega (arith, xor_fields 16 (r / 2 ^ 16 % 2 ^ 8) (r % 2 ^ 16) (omega arith))

mulx_halves :
    (r : ℕ)
    → r < 2 ^ 24
    → mulx_times 8 r ≡ bit_xor (mulx_times 8 (r / 2 ^ 16 % 2 ^ 8 * 2 ^ 16)) (r % 2 ^ 16 * 2 ^ 8)
mulx_halves r h =
    ap (mulx_times 8) (sym (halves r h))
    ∙ (mulx_times-xor 8 (r / 2 ^ 16 % 2 ^ 8 * 2 ^ 16) (r % 2 ^ 16)
        ∙ ap (bit_xor (mulx_times 8 (r / 2 ^ 16 % 2 ^ 8 * 2 ^ 16)))
            (mulx_times_small 8 (r % 2 ^ 16) (omega arith)))

looked_up :
    (h m : ℕ)
    → h < 256
    → m < 256
    → crc_table (bit_xor m h) % 2 ^ 24
      ≡ bit_xor (mulx_times 8 (m * 2 ^ 16)) (mulx_times 8 (h * 2 ^ 16))
looked_up h m hh hm =
    mod-eq_of_lt (crc_table-lt (bit_xor m h))
    ∙ (crc_table-xor m h ∙ ap₂ bit_xor (crc_table_lem m hm) (crc_table_lem h hh))

-- A pass of the loop multiplies by x ^ 8 the register with the byte added at its top.
pub crc_byte_lem :
    (r m : ℕ) → r < 2 ^ 24 → m < 256 → crc_byte r m ≡ mulx_times 8 (bit_xor r (m * 2 ^ 16))
unfolding crc_byte
crc_byte_lem r m hr hm =
    xor-mod 24 (r * 2 ^ 8 % 2 ^ 32) (crc_table (bit_xor m (r / 2 ^ 16 % 2 ^ 8)))
    ∙ (ap₂ bit_xor (low_half r) (looked_up (r / 2 ^ 16 % 2 ^ 8) m (omega arith) hm)
        ∙ (xor_rotate (r % 2 ^ 16 * 2 ^ 8) (mulx_times 8 (m * 2 ^ 16)) _
            ∙ (ap (λ t. bit_xor t (mulx_times 8 (m * 2 ^ 16))) (sym (mulx_halves r hr))
                ∙ sym (mulx_times-xor 8 r (m * 2 ^ 16)))))
