-- ===== src/ModeAc/Gillham.antt =====
-- The Gillham code: an encoder of altitudes independent of the decoder, and the checks over all
-- 4096 codes that the other proofs rest on.
use hpr_readsb.Base.Below.{all_below, all_below-at}
use hpr_readsb.Base.{ℕ, zero, suc, ◌+◌, ◌-◌, ◌/◌, ◌%◌, ◌^◌, ◌<◌, bit_xor}
use hpr_readsb.Base.{Bool, true, List, [], ◌∷◌, ◌&&◌, ◌||◌, arith, refl, ◌≡◌}
use hpr_readsb.Base.{◌==◌, ltb, if◌then◌else◌, get_or, ==_iff}
use hpr_readsb.ModeAc.{index_to_mode_a, mode_a_to_index, internal_mode_a_to_mode_c, mode_c_index}
use hpr_readsb.ModeAc.{squawk_hex_2_dec, squawk_dec_2_hex, one_hundreds, five_hundreds}

-- The three C pulses for the hundreds 1 to 5, in the reflected order.
unfoldable pub hundreds_code : List ℕ
hundreds_code = 0 ∷ 0x40 ∷ 0x60 ∷ 0x20 ∷ 0x30 ∷ 0x10 ∷ []

-- Bit `i` of the reflected binary code of `five`, as a pulse.
unfoldable pub pulse : ℕ → ℕ → ℕ → ℕ
pulse five i mask = if bit_xor five (five / 2) / 2 ^ i % 2 == 1 then mask else 0

-- The Mode A code of the altitude `100 * (n - 13)` feet, from 1 to 1280.
unfoldable pub gillham : ℕ → ℕ
gillham n =
    let five = (n - 1) / 5 in
    let one = (n - 1) % 5 + 1 in
    let ordered = if five % 2 == 1 then 6 - one else one in
    get_or hundreds_code ordered 0
    + pulse five 7 0x2
    + pulse five 6 0x4
    + pulse five 5 0x1000
    + pulse five 4 0x2000
    + pulse five 3 0x4000
    + pulse five 2 0x100
    + pulse five 1 0x200
    + pulse five 0 0x400

-- The index of the code, where it is an altitude, leads back to it.
code_decodes : ℕ → Bool
code_decodes i =
    let c = mode_c_index (internal_mode_a_to_mode_c (index_to_mode_a i)) in
    c == 4096 || (ltb 0 c && ltb c 1281 && gillham c == index_to_mode_a i)

gillham_decodes : ℕ → Bool
gillham_decodes n =
    mode_c_index (internal_mode_a_to_mode_c (gillham (suc n))) == suc n
    && index_to_mode_a (mode_a_to_index (gillham (suc n))) == gillham (suc n)
    && ltb (mode_a_to_index (gillham (suc n))) 4096

-- How many of the lowest `k` bits are set.
pub count_bits : ℕ → ℕ → ℕ
count_bits zero x = 0
count_bits (suc k) x = x % 2 + count_bits k (x / 2)

gillham_steps : ℕ → Bool
gillham_steps n = count_bits 16 (bit_xor (gillham (suc n)) (gillham (suc n + 1))) == 1

squawk_returns : ℕ → Bool
squawk_returns d = squawk_hex_2_dec (squawk_dec_2_hex d) == d

index_returns : ℕ → Bool
index_returns i = mode_a_to_index (index_to_mode_a i) == i

codes_decode : all_below code_decodes 4096 ≡ true
unfolding all_below code_decodes index_to_mode_a mode_c_index internal_mode_a_to_mode_c gillham
    pulse hundreds_code one_hundreds five_hundreds
codes_decode = refl

indices_return : all_below index_returns 4096 ≡ true
unfolding all_below index_returns index_to_mode_a mode_a_to_index
indices_return = refl

gillhams_decode : all_below gillham_decodes 1280 ≡ true
unfolding all_below gillham_decodes index_to_mode_a mode_a_to_index mode_c_index
    internal_mode_a_to_mode_c gillham pulse hundreds_code one_hundreds five_hundreds
gillhams_decode = refl

gillhams_step : all_below gillham_steps 1279 ≡ true
unfolding all_below gillham_steps gillham pulse hundreds_code count_bits
gillhams_step = refl

squawks_return : all_below squawk_returns 10000 ≡ true
unfolding all_below squawk_returns squawk_hex_2_dec squawk_dec_2_hex
squawks_return = refl

pub mode_a_to_index-index_to_mode_a : (i : ℕ) → i < 4096 → mode_a_to_index (index_to_mode_a i) ≡ i
unfolding index_returns
mode_a_to_index-index_to_mode_a i h =
    (==_iff (mode_a_to_index (index_to_mode_a i)) i).0
      (all_below-at index_returns 4096 i indices_return h)

-- For a number of at most four decimal digits, squawkHex2Dec of squawkDec2Hex is the number.
pub squawk_hex_2_dec-squawk_dec_2_hex :
    (d : ℕ) → d < 10000 → squawk_hex_2_dec (squawk_dec_2_hex d) ≡ d
unfolding squawk_returns
squawk_hex_2_dec-squawk_dec_2_hex d h =
    (==_iff (squawk_hex_2_dec (squawk_dec_2_hex d)) d).0
      (all_below-at squawk_returns 10000 d squawks_return h)

abbrev pub index_of : ℕ → ℕ
index_of i = mode_c_index (internal_mode_a_to_mode_c (index_to_mode_a i))

from_checks :
    (c g m : ℕ)
    → (c == 4096 || (ltb 0 c && ltb c 1281 && g == m)) ≡ true
    → c < 4096
    → (0 < c) × (c < 1281) × (g ≡ m)
from_checks c g m h l = ground arith

pub index_of-gillham :
    (i : ℕ)
    → i < 4096
    → index_of i < 4096
    → (0 < index_of i) × (index_of i < 1281) × (gillham (index_of i) ≡ index_to_mode_a i)
unfolding code_decodes
index_of-gillham i h l =
    from_checks (index_of i) (gillham (index_of i)) (index_to_mode_a i)
      (all_below-at code_decodes 4096 i codes_decode h) l

both_checks :
    (a b c d e : ℕ) → (a == b && c == d && ltb e 4096) ≡ true → (a ≡ b) × (c ≡ d) × (e < 4096)
both_checks a b c d e h = ground arith

pub gillham-index :
    (c : ℕ)
    → 0 < c
    → c < 1281
    → (mode_c_index (internal_mode_a_to_mode_c (gillham c)) ≡ c)
      × (index_to_mode_a (mode_a_to_index (gillham c)) ≡ gillham c)
      × (mode_a_to_index (gillham c) < 4096)
unfolding gillham_decodes
gillham-index zero l h = absurd (omega arith)
gillham-index (suc n) l h =
    both_checks (mode_c_index (internal_mode_a_to_mode_c (gillham (suc n)))) (suc n)
      (index_to_mode_a (mode_a_to_index (gillham (suc n)))) (gillham (suc n))
      (mode_a_to_index (gillham (suc n)))
      (all_below-at gillham_decodes 1280 n gillhams_decode (omega arith))

-- The codes of two altitudes 100 feet apart differ in one bit.
pub gillham-count_bits :
    (c : ℕ) → 0 < c → c < 1280 → count_bits 16 (bit_xor (gillham c) (gillham (c + 1))) ≡ 1
unfolding gillham_steps
gillham-count_bits zero l h = absurd (omega arith)
gillham-count_bits (suc n) l h =
    (==_iff (count_bits 16 (bit_xor (gillham (suc n)) (gillham (suc n + 1)))) 1).0
      (all_below-at gillham_steps 1279 n gillhams_step (omega arith))
