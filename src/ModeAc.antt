-- ===== src/ModeAc.antt =====
-- mode_ac.c and the inline conversions of track.h: Mode A codes, Mode C altitudes and the two
-- tables that `modeACInit` fills.
pub mod Gillham
pub mod Altitudes
mod Tests
use hpr_readsb.Base.{ℕ, zero, suc, ◌+◌, ◌-◌, ◌*◌, ◌/◌, ◌%◌, ◌^◌, bit_and, bit_or, bit_xor}
use hpr_readsb.Base.{Bool, true, false, List, [], ◌∷◌, ◌++◌, ◌&&◌, ◌||◌, not}
use hpr_readsb.Base.{◌==◌, ltb, leb, if◌then◌else◌, get_or, set, replicate}
use hpr_readsb.Base.Int.{ℤ, pos, negsuc, sub_ℕ}

abbrev pub invalid_altitude : ℤ
invalid_altitude = negsuc 9998

-- `(x & mask) != 0`
abbrev pub has : ℕ → ℕ → Bool
has x mask = not (bit_and x mask == 0)

abbrev pub xor_if : Bool → ℕ → ℕ → ℕ
xor_if b mask x = if b then bit_xor x mask else x

-- `modeAToIndex`
pub mode_a_to_index : ℕ → ℕ
mode_a_to_index mode_a =
    bit_or
      (bit_or (bit_or (bit_and mode_a 0x7) (bit_and mode_a 0x70 / 2)) (bit_and mode_a 0x700 / 4))
      (bit_and mode_a 0x7000 / 8)

-- `indexToModeA`
pub index_to_mode_a : ℕ → ℕ
index_to_mode_a index =
    bit_or (bit_or (bit_or (bit_and index 7) (bit_and index 56 * 2)) (bit_and index 448 * 4))
      (bit_and index 3584 * 8)

-- `squawkHex2Dec`
pub squawk_hex_2_dec : ℕ → ℕ
squawk_hex_2_dec s =
    bit_and s 0xf000 / 0x1000 * 1000
    + bit_and s 0xf00 / 0x100 * 100
    + bit_and s 0xf0 / 0x10 * 10
    + bit_and s 0xf / 1 * 1

-- `squawkDec2Hex`
pub squawk_dec_2_hex : ℕ → ℕ
squawk_dec_2_hex s =
    s / 1000 % 10 * 16 * 16 * 16 + s / 100 % 10 * 16 * 16 + s / 10 % 10 * 16 + s % 10

-- The C bits, and the exchange of 5 and 7.
pub one_hundreds : ℕ → ℕ
one_hundreds mode_a =
    let c1 = xor_if (has mode_a 0x10) 0x7 0 in
    let c2 = xor_if (has mode_a 0x20) 0x3 c1 in
    let c4 = xor_if (has mode_a 0x40) 0x1 c2 in xor_if (bit_and c4 5 == 5) 2 c4

-- The D, A and B bits.
pub five_hundreds : ℕ → ℕ
five_hundreds mode_a =
    let d2 = xor_if (has mode_a 0x2) 0xff 0 in
    let d4 = xor_if (has mode_a 0x4) 0x7f d2 in
    let a1 = xor_if (has mode_a 0x1000) 0x3f d4 in
    let a2 = xor_if (has mode_a 0x2000) 0x1f a1 in
    let a4 = xor_if (has mode_a 0x4000) 0xf a2 in
    let b1 = xor_if (has mode_a 0x100) 0x7 a4 in
    let b2 = xor_if (has mode_a 0x200) 0x3 b1 in xor_if (has mode_a 0x400) 0x1 b2

-- `internalModeAToModeC`
pub internal_mode_a_to_mode_c : ℕ → ℤ
internal_mode_a_to_mode_c mode_a =
    let ones = one_hundreds mode_a in
    let fives = five_hundreds mode_a in
    let ordered = if has fives 1 then 6 - ones else ones in
    if has mode_a 0xffff8889 || bit_and mode_a 0xf0 == 0
    then invalid_altitude
    else if ltb 5 ones
    then invalid_altitude
    else sub_ℕ (fives * 5 + ordered) 13

-- `modeAToCTable` and `modeCToATable`
pub record AcTables : Type 0 where
  pub a_to_c : List ℤ
  pub c_to_a : List ℕ

-- `modeC + 13` where it is an index of `modeCToATable`, else 4096.
unfoldable pub mode_c_index : ℤ → ℕ
mode_c_index (pos n) = if ltb (n + 13) 4096 then n + 13 else 4096
mode_c_index (negsuc n) = if leb 13 n then 4096 else 12 - n

-- The body of the loop of `modeACInit`, without its assertion that no value is set twice.
pub init_step : ℕ → AcTables → AcTables
init_step i t =
    let mode_a = index_to_mode_a i in
    let mode_c = internal_mode_a_to_mode_c mode_a in
    let index = mode_c_index mode_c in
    record {
      a_to_c = set t.a_to_c i mode_c;
      c_to_a = if ltb index 4096 then set t.c_to_a index mode_a else t.c_to_a;
    }

-- The first `n` rounds of that loop.
pub init_loop : ℕ → AcTables
init_loop zero = record { a_to_c = replicate 4096 (pos 0); c_to_a = replicate 4096 0 }
init_loop (suc n) = init_step n (init_loop n)

-- `modeACInit`
pub mode_ac_init : AcTables
mode_ac_init = init_loop 4096

-- `modeAToModeC`
pub mode_a_to_mode_c : AcTables → ℕ → ℤ
mode_a_to_mode_c t mode_a =
    let i = mode_a_to_index mode_a in
    if leb 4096 i then invalid_altitude else get_or t.a_to_c i (pos 0)

-- `modeCToModeA`
pub mode_c_to_mode_a : AcTables → ℤ → ℕ
mode_c_to_mode_a t mode_c =
    let i = mode_c_index mode_c in if ltb i 4096 then get_or t.c_to_a i 0 else 0
