-- ===== src/Crc/Tests.antt =====
-- Tests of the parity check and its repair, on a squitter from the field.
use hpr_readsb.Base.{ℕ, ◌*◌, ◌^◌, ◌<◌, arith, refl, ◌≡◌, bit_xor}
use hpr_readsb.Base.{List, [], ◌∷◌, some}
use hpr_readsb.Crc.{checksum, modes_checksum, crc_loop, crc_byte, crc_table, crc_rounds, crc_shift}
use hpr_readsb.Crc.{flip_bit, single_bit_syndrome}
use hpr_readsb.Crc.Linear.{xor_bytes, checksum-xor}
use hpr_readsb.Crc.Division.{remainder, modes_checksum-remainder}
use hpr_readsb.Crc.Syndrome.{checksum_flip, long}
use hpr_readsb.Crc.Table.{}

-- An extended squitter with a good checksum.
abbrev pub squitter : List ℕ
squitter =
    0x8d ∷ 0x40 ∷ 0x62 ∷ 0x1d ∷ 0x58 ∷ 0xc3 ∷ 0x82 ∷ 0xd6 ∷ 0x90 ∷ 0xc8 ∷ 0xac ∷ 0x28 ∷ 0x63 ∷ 0xa7
    ∷ []

-- The same with bit 40 flipped.
abbrev pub damaged : List ℕ
damaged =
    0x8d ∷ 0x40 ∷ 0x62 ∷ 0x1d ∷ 0x58 ∷ 0x43 ∷ 0x82 ∷ 0xd6 ∷ 0x90 ∷ 0xc8 ∷ 0xac ∷ 0x28 ∷ 0x63 ∷ 0xa7
    ∷ []

good_checksum : modes_checksum squitter 112 ≡ some 0
unfolding modes_checksum checksum crc_loop crc_byte crc_table crc_rounds crc_shift
good_checksum = refl

flipped : flip_bit squitter 40 ≡ damaged
unfolding flip_bit
flipped = refl

modes_checksum-remainder_example :
    (modes_checksum squitter (14 * 8) ≡ some (remainder 0 squitter))
    × (remainder 0 squitter < 2 ^ 24)
modes_checksum-remainder_example =
    modes_checksum-remainder 14 squitter (omega arith) refl (omega arith)

checksum-xor_example :
    checksum 14 (xor_bytes squitter damaged) ≡ bit_xor (checksum 14 squitter) (checksum 14 damaged)
checksum-xor_example = checksum-xor 14 squitter damaged refl

checksum_flip_example :
    checksum 14 (flip_bit squitter 40) ≡ bit_xor (checksum 14 squitter) (single_bit_syndrome 40)
checksum_flip_example =
    checksum_flip {n = 14} {offset = 0} 40 squitter (long refl refl) refl (omega arith)
