-- ===== src/Crc/Syndrome.antt =====
-- crc.c: the checksum of a message with one bit flipped.
use hpr_readsb.Base.Below.{all_below, all_below-at}
use hpr_readsb.Base.{ℕ, zero, suc, ◌+◌, ◌-◌, ◌*◌, ◌/◌, ◌%◌, ◌^◌, ◌<◌, bit_xor, arith}
use hpr_readsb.Base.{◌≡◌, refl, sym, ap, ◌∙◌, true, ◌==◌, ==_iff, List, [], ◌∷◌}
use hpr_readsb.Base.{length, get_or, set, replicate, length-set, length-replicate}
use hpr_readsb.Base.Bits.{xor_assoc, xor-zero}
use hpr_readsb.Crc.{checksum, crc_loop, crc_byte, crc_table, crc_rounds, crc_shift, flip_bit}
use hpr_readsb.Crc.{single_bit_syndrome}
use native.Mathlib.Nat.{add-zero}
use hpr_readsb.Crc.Linear.{xor_bytes, checksum-xor}

pub length-flip_bit : (msg : List ℕ) (i : ℕ) → length (flip_bit msg i) ≡ length msg
unfolding flip_bit
length-flip_bit msg i = length-set msg (i / 8) _

xor_bytes-zeros : (msg : List ℕ) → xor_bytes msg (replicate (length msg) 0) ≡ msg
unfolding xor_bytes
xor_bytes-zeros [] = refl
xor_bytes-zeros (m ∷ msg) = rw (xor-zero m, xor_bytes-zeros msg)

-- A byte of the sum changes as the byte of the second message does.
xor_bytes-set :
    (xs ys : List ℕ) (k v : ℕ)
    → length xs ≡ length ys
    → xor_bytes xs (set ys k (bit_xor (get_or ys k 0) v))
      ≡ set (xor_bytes xs ys) k (bit_xor (get_or (xor_bytes xs ys) k 0) v)
unfolding xor_bytes
xor_bytes-set [] ys k v h = refl
xor_bytes-set (x ∷ xs) [] k v h = absurd (omega arith)
xor_bytes-set (x ∷ xs) (y ∷ ys) zero v h = rw (xor_assoc x y v)
xor_bytes-set (x ∷ xs) (y ∷ ys) (suc k) v h = rw (xor_bytes-set xs ys k v (omega arith))

flip_bit-sum :
    (msg : List ℕ) (i : ℕ) → flip_bit msg i ≡ xor_bytes msg (flip_bit (replicate (length msg) 0) i)
unfolding flip_bit
flip_bit-sum msg i = sym (
    xor_bytes-set msg (replicate (length msg) 0) (i / 8) (2 ^ (7 - i % 8))
      (sym (length-replicate (length msg) 0))
    ∙ ap (λ t. set t (i / 8) (bit_xor (get_or t (i / 8) 0) (2 ^ (7 - i % 8))))
        (xor_bytes-zeros msg))

checksum-flip_bit :
    (n i : ℕ) (msg : List ℕ)
    → checksum n (flip_bit msg i)
      ≡ bit_xor (checksum n msg) (checksum n (flip_bit (replicate (length msg) 0) i))
checksum-flip_bit n i msg =
    ap (checksum n) (flip_bit-sum msg i)
    ∙ checksum-xor n msg (flip_bit (replicate (length msg) 0) i)
        (sym (length-flip_bit (replicate (length msg) 0) i ∙ length-replicate (length msg) 0))

-- In a short message bit `i` has the syndrome of bit `i + 56` of a long one.
short_table :
    all_below (λ i. checksum 7 (flip_bit (replicate 7 0) i) == single_bit_syndrome (i + 56)) 56
    ≡ true
unfolding all_below checksum flip_bit single_bit_syndrome crc_loop crc_byte crc_table crc_rounds
    crc_shift
short_table = refl

short_syndrome :
    (i : ℕ) → i < 56 → checksum 7 (flip_bit (replicate 7 0) i) ≡ single_bit_syndrome (i + 56)
short_syndrome i h = (==_iff _ _).0 (
    all_below-at (λ k. checksum 7 (flip_bit (replicate 7 0) k) == single_bit_syndrome (k + 56)) 56 i
      short_table h)

-- A message of 56 or 112 bits with the place of its first bit in the syndrome table.
pub data Layout : ℕ → ℕ → Type 0 where
  short : {n offset : ℕ} → n ≡ 7 → offset ≡ 56 → Layout n offset
  long : {n offset : ℕ} → n ≡ 14 → offset ≡ 0 → Layout n offset

checksum_flip_short :
    (i : ℕ) (msg : List ℕ)
    → length msg ≡ 7
    → i < 56
    → checksum 7 (flip_bit msg i) ≡ bit_xor (checksum 7 msg) (single_bit_syndrome (i + 56))
checksum_flip_short i msg hl hi =
    checksum-flip_bit 7 i msg
    ∙ (ap (λ t. bit_xor (checksum 7 msg) (checksum 7 (flip_bit (replicate t 0) i))) hl
        ∙ ap (bit_xor (checksum 7 msg)) (short_syndrome i hi))

checksum_flip_long :
    (i : ℕ) (msg : List ℕ)
    → length msg ≡ 14
    → checksum 14 (flip_bit msg i) ≡ bit_xor (checksum 14 msg) (single_bit_syndrome (i + 0))
unfolding single_bit_syndrome
checksum_flip_long i msg hl =
    checksum-flip_bit 14 i msg
    ∙ (ap (λ t. bit_xor (checksum 14 msg) (checksum 14 (flip_bit (replicate t 0) i))) hl
        ∙ ap (λ t. bit_xor (checksum 14 msg) (checksum 14 (flip_bit (replicate 14 0) t)))
            (sym (add-zero i)))

-- In a message of 56 or 112 bits, flipping bit i changes the checksum by the entry of
-- single_bit_syndrome for that bit, which for a short message stands 56 places further on.
pub checksum_flip :
    {n offset : ℕ} (i : ℕ) (msg : List ℕ)
    → Layout n offset
    → length msg ≡ n
    → i < n * 8
    → checksum n (flip_bit msg i) ≡ bit_xor (checksum n msg) (single_bit_syndrome (i + offset))
checksum_flip i msg (short en eo) hl hi =
    rw (en, eo) (checksum_flip_short i msg (hl ∙ en) (rw en at hi))
checksum_flip i msg (long en eo) hl hi = rw (en, eo) (checksum_flip_long i msg (hl ∙ en))
