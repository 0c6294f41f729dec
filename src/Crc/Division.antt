-- ===== src/Crc/Division.antt =====
-- The parity check of crc.c against long division of the message, bit by bit, by the generator
-- polynomial of degree 24.
use hpr_readsb.Base.{ℕ, zero, suc, ◌+◌, ◌-◌, ◌*◌, ◌/◌, ◌%◌, ◌^◌, ◌≤◌, ◌<◌, bit_xor, arith}
use hpr_readsb.Base.{◌≡◌, sym, ap, ap₂, ◌∙◌, List, [], ◌∷◌, some, All, length, get_or}
use hpr_readsb.Base.{◌==◌, if◌then◌else◌}
use hpr_readsb.Base.Bits.{xor-lt, xor_fields, xor_assoc, xor-zero, xor_comm}
use hpr_readsb.Base.Bits.{zero-xor, xor_self, xor_interchange}
use native.Mathlib.Nat.{
  pow-suc, mod-eq_of_lt, mod-lt, mod-one, one-le-pow, div-add-mod, div-div-eq-div-mul,
  pow-le-pow_right,
}
use hpr_readsb.Crc.{generator_poly, crc_byte, crc_loop, checksum, modes_checksum}
use hpr_readsb.Crc.Shift.{
  mulx, mulx_small, mulx_top, mulx_times, mulx-lt, mulx_times-lt, mulx_times-xor, mulx_times-add,
}
use hpr_readsb.Crc.Shift.{mulx_times_small, crc_byte_lem}

-- x ^ 24 and the terms below it.
abbrev pub generator : ℕ
generator = 0x1fff409

-- One step of the division: bring the next bit down, and take the generator off where it goes.
pub divide_bit : ℕ → ℕ → ℕ
divide_bit r b = if (r * 2 + b) / 2 ^ 24 % 2 == 1 then bit_xor (r * 2 + b) generator else r * 2 + b

-- The `j` low bits of a byte, highest first.
pub divide_bits : ℕ → ℕ → ℕ → ℕ
divide_bits zero r m = r
divide_bits (suc j) r m = divide_bits j (divide_bit r (m / 2 ^ j % 2)) m

-- The remainder of the message, brought down after the remainder `r` of what stood before it.
pub remainder : ℕ → List ℕ → ℕ
remainder r [] = r
remainder r (m ∷ ms) = remainder (divide_bits 8 r m) ms

abbrev pub IsBytes : List ℕ → Type 0
IsBytes = All (λ m. m < 256)

-- With a common top term both numbers lose it.
xor_drop : (h d b p : ℕ) → bit_xor (bit_xor (bit_xor h d) b) (bit_xor h p) ≡ bit_xor (bit_xor d p) b
xor_drop h d b p =
    ap (λ t. bit_xor t (bit_xor h p)) (xor_assoc h d b)
    ∙ (xor_interchange h (bit_xor d b) h p
        ∙ (ap (λ t. bit_xor t (bit_xor (bit_xor d b) p)) (xor_self h)
            ∙ (zero-xor (bit_xor (bit_xor d b) p)
                ∙ (xor_assoc d b p ∙ (ap (bit_xor d) (xor_comm b p) ∙ sym (xor_assoc d p b))))))

-- The register after a bit came down, as a sum of its parts.
parts :
    (r b : ℕ)
    → r < 2 ^ 24
    → 2 ^ 23 ≤ r
    → b < 2
    → r * 2 + b ≡ bit_xor (bit_xor (1 * 2 ^ 24) (r * 2 - 2 ^ 24)) b
parts r b hr top hb =
    let e : r * 2 ≡ bit_xor (1 * 2 ^ 24) (r * 2 - 2 ^ 24) =
      omega (arith, xor_fields 24 1 (r * 2 - 2 ^ 24) (omega arith)) in
    sym (xor_fields 1 r b hb) ∙ ap (λ t. bit_xor t b) e

subtraction :
    (r b : ℕ) → r < 2 ^ 24 → 2 ^ 23 ≤ r → b < 2 → bit_xor (r * 2 + b) generator ≡ bit_xor (mulx r) b
subtraction r b hr top hb =
    ap (λ t. bit_xor t generator) (parts r b hr top hb)
    ∙ (xor_drop (1 * 2 ^ 24) (r * 2 - 2 ^ 24) b generator_poly
        ∙ ap (λ t. bit_xor t b) (sym (mulx_top r hr top)))

divide_bit_lem : (r b : ℕ) → r < 2 ^ 24 → b < 2 → divide_bit r b ≡ bit_xor (mulx r) b
unfolding divide_bit
divide_bit_lem r b hr hb = ground (arith, subtraction r b hr, mulx_small r, xor_fields 1 r b hb)

mod_pow_top : (j m : ℕ) → m / 2 ^ j % 2 * 2 ^ j + m % 2 ^ j ≡ m % 2 ^ suc j
mod_pow_top j m = omega (
  arith,
  div-add-mod m (2 ^ suc j),
  div-add-mod m (2 ^ j),
  ap (λ (t : ℕ). 2 ^ suc j * t) halved,
  ap (λ (t : ℕ). t * (m / 2 ^ j / 2)) (pow-suc 2 j),
  ap (λ (t : ℕ). 2 ^ j * t) (div-add-mod (m / 2 ^ j) 2),
)
  where
    halved : m / 2 ^ suc j ≡ m / 2 ^ j / 2
    halved = ap (λ t. m / t) (pow-suc 2 j) ∙ sym (div-div-eq-div-mul m (2 ^ j) 2)

top_bit : (j m : ℕ) → bit_xor (m / 2 ^ j % 2 * 2 ^ j) (m % 2 ^ j) ≡ m % 2 ^ suc j
top_bit j m =
    xor_fields j (m / 2 ^ j % 2) (m % 2 ^ j) (mod-lt m (one-le-pow j 2 (omega arith)))
    ∙ mod_pow_top j m

bit_fits : (j b : ℕ) → suc j ≤ 8 → b < 2 → b * 2 ^ j < 2 ^ 24
bit_fits j zero hj hb = omega arith
bit_fits j (suc zero) hj hb =
    let small : 2 ^ j ≤ 2 ^ 8 =
      pow-le-pow_right {n = 2} (omega arith) {i = j} {j = 8} (omega arith) in
    omega arith
bit_fits j (suc (suc b)) hj hb = absurd (omega arith)

-- Some bits of a byte, brought down one by one, or all together after the shifts.
divide_bits_lem :
    (j r m : ℕ) → j ≤ 8 → r < 2 ^ 24 → divide_bits j r m ≡ bit_xor (mulx_times j r) (m % 2 ^ j)
unfolding divide_bits mulx_times
divide_bits_lem zero r m hj hr = sym (ap (bit_xor r) (mod-one m) ∙ xor-zero r)
divide_bits_lem (suc j) r m hj hr =
    let b = m / 2 ^ j % 2 in
    ap (λ t. divide_bits j t m) (divide_bit_lem r b hr (omega arith))
    ∙ (divide_bits_lem j (bit_xor (mulx r) b) m (omega arith)
          (xor-lt 24 (mulx r) b (mulx-lt r) (omega arith))
        ∙ (ap (λ t. bit_xor t (m % 2 ^ j))
              (mulx_times-xor j (mulx r) b
                ∙ ap (bit_xor (mulx_times j (mulx r)))
                    (mulx_times_small j b (bit_fits j b hj (omega arith))))
            ∙ (xor_assoc (mulx_times j (mulx r)) (b * 2 ^ j) (m % 2 ^ j)
                ∙ ap (bit_xor (mulx_times j (mulx r))) (top_bit j m))))

divide_byte : (r m : ℕ) → r < 2 ^ 24 → m < 256 → divide_bits 8 r m ≡ bit_xor (mulx_times 8 r) m
divide_byte r m hr hm =
    divide_bits_lem 8 r m (omega arith) hr ∙ ap (bit_xor (mulx_times 8 r)) (mod-eq_of_lt hm)

-- Eight bits at a time the division does what the table does three bytes later.
advance :
    (s m : ℕ)
    → s < 2 ^ 24
    → m < 256
    → crc_byte (mulx_times 24 s) m ≡ mulx_times 24 (divide_bits 8 s m)
advance s m hs hm =
    crc_byte_lem (mulx_times 24 s) m (mulx_times-lt 24 s hs) hm
    ∙ (mulx_times-xor 8 (mulx_times 24 s) (m * 2 ^ 16)
        ∙ (ap₂ bit_xor (mulx_times-add 8 24 s ∙ sym (mulx_times-add 24 8 s)) (
              ap (mulx_times 8) (sym (mulx_times_small 16 m (omega arith))) ∙ mulx_times-add 8 16 m)
            ∙ (sym (mulx_times-xor 24 (mulx_times 8 s) m)
                ∙ ap (mulx_times 24) (sym (divide_byte s m hs hm)))))

divide_byte-lt : (s m : ℕ) → s < 2 ^ 24 → m < 256 → divide_bits 8 s m < 2 ^ 24
divide_byte-lt s m hs hm =
    rw (divide_byte s m hs hm) (xor-lt 24 (mulx_times 8 s) m (mulx_times-lt 8 s hs) (omega arith))

-- The three parity bytes, brought down at the end.
parity_bytes :
    (s a b c : ℕ)
    → s < 2 ^ 24
    → a < 256
    → b < 256
    → c < 256
    → bit_xor (bit_xor (bit_xor (mulx_times 24 s) (a * 2 ^ 16)) (b * 2 ^ 8)) c
      ≡ remainder s (a ∷ b ∷ c ∷ [])
unfolding remainder
parity_bytes s a b c hs ha hb hc =
    let s1 = divide_bits 8 s a in
    let s2 = divide_bits 8 s1 b in
    let h1 : s1 < 2 ^ 24 = divide_byte-lt s a hs ha in
    let e1 : mulx_times 16 s1 ≡ bit_xor (mulx_times 24 s) (a * 2 ^ 16) =
      ap (mulx_times 16) (divide_byte s a hs ha)
      ∙ (mulx_times-xor 16 (mulx_times 8 s) a
          ∙ ap₂ bit_xor (mulx_times-add 16 8 s) (mulx_times_small 16 a (omega arith))) in
    let e2 : mulx_times 8 s2 ≡ bit_xor (mulx_times 16 s1) (b * 2 ^ 8) =
      ap (mulx_times 8) (divide_byte s1 b h1 hb)
      ∙ (mulx_times-xor 8 (mulx_times 8 s1) b
          ∙ ap₂ bit_xor (mulx_times-add 8 8 s1) (mulx_times_small 8 b (omega arith))) in
    sym (
      divide_byte s2 c (divide_byte-lt s1 b h1 hb) hc
      ∙ ap (λ t. bit_xor t c) (e2 ∙ ap (λ t. bit_xor t (b * 2 ^ 8)) e1))

loop_divides :
    (k s : ℕ) (ms : List ℕ)
    → s < 2 ^ 24
    → length ms ≡ k + 3
    → IsBytes ms
    → bit_xor
        (bit_xor
          (bit_xor (crc_loop k (mulx_times 24 s) ms) (get_or ms k 0 * 2 ^ 16))
          (get_or ms (k + 1) 0 * 2 ^ 8))
        (get_or ms (k + 2) 0)
      ≡ remainder s ms
unfolding crc_loop remainder
loop_divides zero s (a ∷ b ∷ c ∷ []) hs hl bytes =
    parity_bytes s a b c hs bytes.0 bytes.1.0 bytes.1.1.0
loop_divides zero s (a ∷ b ∷ c ∷ d ∷ ms) hs hl bytes = absurd (omega arith)
loop_divides zero s (a ∷ b ∷ []) hs hl bytes = absurd (omega arith)
loop_divides zero s (a ∷ []) hs hl bytes = absurd (omega arith)
loop_divides zero s [] hs hl bytes = absurd (omega arith)
loop_divides (suc k) s [] hs hl bytes = absurd (omega arith)
loop_divides (suc k) s (m ∷ ms) hs hl bytes =
    let s' = divide_bits 8 s m in
    let i1 : suc k + 1 ≡ suc (k + 1) = omega arith in
    let i2 : suc k + 2 ≡ suc (k + 2) = omega arith in
    rw (i1, i2, advance s m hs bytes.0)
      (loop_divides k s' ms (divide_byte-lt s m hs bytes.0) (omega arith) bytes.1)

mulx_times_nil : mulx_times 24 0 ≡ 0
mulx_times_nil = mulx_times_small 24 0 (omega arith)

checksum_divides :
    (n : ℕ) (ms : List ℕ) → 3 ≤ n → length ms ≡ n → IsBytes ms → checksum n ms ≡ remainder 0 ms
unfolding checksum
checksum_divides n ms h hl bytes =
    let e1 : n - 2 ≡ n - 3 + 1 = omega arith in
    let e2 : n - 1 ≡ n - 3 + 2 = omega arith in
    rw (e1, e2) (rw mulx_times_nil at (loop_divides (n - 3) 0 ms (omega arith) (omega arith) bytes))

remainder-lt : (r : ℕ) (ms : List ℕ) → r < 2 ^ 24 → IsBytes ms → remainder r ms < 2 ^ 24
unfolding remainder
remainder-lt r [] h bytes = h
remainder-lt r (m ∷ ms) h bytes =
    remainder-lt (divide_bits 8 r m) ms (divide_byte-lt r m h bytes.0) bytes.1

-- For a message of n bytes, at least three, modesChecksum with bit length n * 8 returns the
-- remainder of long division of the message, bit by bit, by the generator polynomial of degree
-- 24, and that remainder is below 2 ^ 24.
pub modes_checksum-remainder :
    (n : ℕ) (ms : List ℕ)
    → 3 ≤ n
    → length ms ≡ n
    → IsBytes ms
    → (modes_checksum ms (n * 8) ≡ some (remainder 0 ms)) × (remainder 0 ms < 2 ^ 24)
unfolding modes_checksum
modes_checksum-remainder n ms h hl bytes =
    (ground (arith, checksum_divides n ms h hl bytes), remainder-lt 0 ms (omega arith) bytes)
