-- ===== src/ModeAc/Tests.antt =====
-- Codes and altitudes at concrete inputs.
use hpr_readsb.Base.{◌<◌, ◌+◌, arith, ◌≡◌, bit_xor}
use hpr_readsb.Base.Int.{sub_ℕ}
use hpr_readsb.ModeAc.{mode_c_to_mode_a, mode_a_to_mode_c, mode_ac_init, index_to_mode_a}
use hpr_readsb.ModeAc.{internal_mode_a_to_mode_c, mode_c_index, squawk_hex_2_dec, squawk_dec_2_hex}
use hpr_readsb.ModeAc.{one_hundreds, five_hundreds}
use hpr_readsb.ModeAc.Gillham.{gillham, count_bits, squawk_hex_2_dec-squawk_dec_2_hex}
use hpr_readsb.ModeAc.Altitudes.{mode_c_to_mode_a-mode_a_to_mode_c, mode_c_to_mode_a-gillham}
use hpr_readsb.ModeAc.Altitudes.{
  mode_c_to_mode_a-count_bits, mode_a_to_mode_c-internal_mode_a_to_mode_c,
}

-- Code 0x0020, of index 16, is -1000 feet; it is read without the table.
decodes : mode_c_index (internal_mode_a_to_mode_c (index_to_mode_a 16)) < 4096
unfolding mode_c_index internal_mode_a_to_mode_c index_to_mode_a one_hundreds five_hundreds
decodes = omega arith

is_altitude : mode_c_index (mode_a_to_mode_c mode_ac_init (index_to_mode_a 16)) < 4096
is_altitude = rw (mode_a_to_mode_c-internal_mode_a_to_mode_c 16 (omega arith)) decodes

mode_c_to_mode_a-mode_a_to_mode_c_example :
    mode_c_to_mode_a mode_ac_init (mode_a_to_mode_c mode_ac_init (index_to_mode_a 16))
    ≡ index_to_mode_a 16
mode_c_to_mode_a-mode_a_to_mode_c_example =
    mode_c_to_mode_a-mode_a_to_mode_c 16 (omega arith) is_altitude

mode_c_to_mode_a-gillham_example : mode_c_to_mode_a mode_ac_init (sub_ℕ 363 13) ≡ gillham 363
mode_c_to_mode_a-gillham_example = mode_c_to_mode_a-gillham 363 (omega arith) (omega arith)

mode_c_to_mode_a-count_bits_example :
    count_bits 16 (
      bit_xor
        (mode_c_to_mode_a mode_ac_init (sub_ℕ 363 13))
        (mode_c_to_mode_a mode_ac_init (sub_ℕ (363 + 1) 13)))
    ≡ 1
mode_c_to_mode_a-count_bits_example = mode_c_to_mode_a-count_bits 363 (omega arith) (omega arith)

squawk_hex_2_dec-squawk_dec_2_hex_example : squawk_hex_2_dec (squawk_dec_2_hex 7700) ≡ 7700
squawk_hex_2_dec-squawk_dec_2_hex_example = squawk_hex_2_dec-squawk_dec_2_hex 7700 (omega arith)
