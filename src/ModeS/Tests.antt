-- ===== src/ModeS/Tests.antt =====
-- Altitude fields and messages at concrete inputs.
use hpr_readsb.Crc.Table.{modes_checksum_diagnose, search_table}
use hpr_readsb.ModeAc.{mode_c_to_mode_a}
use hpr_readsb.ModeS.ModeA.{decode_mode_a_message, decode_mode_a_message-mode_c_to_mode_a}
use hpr_readsb.ModeS.Score.{score_type, score_squitter, minus_2}
use hpr_readsb.ModeS.Verdict.{Rejected, score_type-check_crc}
use hpr_readsb.Base.{ℕ, ◌*◌, arith, refl, ◌≡◌}
use hpr_readsb.Base.{true, false, List, [], ◌∷◌, none, some}
use hpr_readsb.Base.Int.{sub_ℕ}
use hpr_readsb.Crc.{modes_checksum, checksum, crc_loop, crc_byte, crc_table, crc_rounds, crc_shift}
use hpr_readsb.Crc.Table.{SortAndSearch, modes_checksum_init}
use hpr_readsb.Crc.Table.Entries.{IsSortAndSearch}
use hpr_readsb.IcaoFilter.{
  Filter, empty, icao_filter_test, test_table, probe, addr_hash, mix_fasthash,
}
use hpr_readsb.ModeAc.{mode_ac_init}
use hpr_readsb.ModeAc.Gillham.{gillham}
use hpr_readsb.ModeS.Bits.{getbits, modes_message_len_by_type}
use hpr_readsb.ModeS.Fields.{decode_ac12_field, decode_ac13_field, feet, hundreds}
use hpr_readsb.ModeS.Sample.{received}
use hpr_readsb.ModeS.Message.{Message, Modes, hex_unknown, source_adsb}
use hpr_readsb.ModeS.Message.{source_mode_s, addr_mode_s, addr_unknown, addr_adsb_icao}
use hpr_readsb.ModeS.Score.{fix_df17_msgtype, all_zeros}
use hpr_readsb.ModeS.Decode.{
  check_crc, check_address_parity, check_squitter, continued, classify, begin, ◌then_do◌,
}
use hpr_readsb.ModeS.Accept.Squitter.{IsCleanSquitter, check_crc-IsCleanSquitter}
use hpr_readsb.ModeS.Accept.Parity.{check_crc-icao_filter_test}
use hpr_readsb.ModeS.Altitude.{field_of_code, field_of_steps, insert_m}
use hpr_readsb.ModeS.Altitude.{
  decode_ac13_field-field_of_steps, decode_ac12_field-decode_ac13_field, decode_ac13_field-gillham,
}

decode_ac13_field-field_of_steps_example :
    decode_ac13_field mode_ac_init (field_of_steps 1560)
    ≡ record { value = sub_ℕ (1560 * 25) 1000; unit = feet; q_bit = 1 }
decode_ac13_field-field_of_steps_example =
    decode_ac13_field-field_of_steps mode_ac_init 1560 (omega arith)

decode_ac12_field-decode_ac13_field_example :
    decode_ac12_field mode_ac_init 0xc38 ≡ decode_ac13_field mode_ac_init (insert_m 0xc38)
decode_ac12_field-decode_ac13_field_example =
    decode_ac12_field-decode_ac13_field mode_ac_init 0xc38 (omega arith)

decode_ac13_field-gillham_example :
    decode_ac13_field mode_ac_init (field_of_code (gillham 363))
    ≡ record { value = hundreds (sub_ℕ 363 13); unit = feet; q_bit = 0 }
decode_ac13_field-gillham_example = decode_ac13_field-gillham 363 (omega arith) (omega arith)

-- A library that finds nothing, for which no error can be repaired.
abbrev blind : SortAndSearch
blind = record { qsort = λ t. t; bsearch = λ s t. none }

blind-IsSortAndSearch : IsSortAndSearch blind
blind-IsSortAndSearch = record { sorts = λ P t h. h; finds = λ s k t h. absurd (cc) }

abbrev modes : Modes
modes = record {
  nfix_crc = 0;
  fix_df = false;
  decode_all = false;
  net_verbatim = false;
  net_ingest = false;
  garbage_ports = false;
  tables = record { short = none; long = none };
  ac_tables = mode_ac_init;
}

-- Two tables of one slot.
abbrev one_known : ℕ → Filter
one_known addr = record {
  bits = 0;
  buckets = 1;
  a = addr ∷ [];
  b = empty ∷ [];
  a_active = true;
  occupied = 1;
}

abbrev squitter : List ℕ
squitter =
    0x8d ∷ 0x48 ∷ 0x40 ∷ 0xd6 ∷ 0x20 ∷ 0x2c ∷ 0xc3 ∷ 0x71 ∷ 0xc3 ∷ 0x2c ∷ 0xe0 ∷ 0x57 ∷ 0x60 ∷ 0x98
    ∷ []

abbrev classified : Message
classified = record (received squitter) {
  msgtype = 17;
  msgbits = 112;
  addr = hex_unknown;
  maybe_addr = hex_unknown;
  addrtype = addr_unknown;
}

no_tables : modes_checksum_init blind 0 ≡ some modes.tables
unfolding modes_checksum_init
no_tables = refl

squitter_format : (begin modes (received squitter) then_do classify modes) ≡ continued classified
unfolding begin classify ◌then_do◌ fix_df17_msgtype getbits modes_message_len_by_type all_zeros
    modes_checksum checksum crc_loop crc_byte crc_table crc_rounds crc_shift
squitter_format = refl

squitter_checked :
    check_crc modes blind (one_known 5) classified
    ≡ continued (record classified { addrtype = addr_adsb_icao; source = source_adsb })
unfolding check_crc check_squitter ◌then_do◌
squitter_checked = refl

check_crc-IsCleanSquitter_example :
    IsCleanSquitter
      (one_known 5)
      (getbits squitter 9 32)
      (record classified { addrtype = addr_adsb_icao; source = source_adsb })
check_crc-IsCleanSquitter_example =
    check_crc-IsCleanSquitter blind blind-IsSortAndSearch modes 0 no_tables refl (one_known 5)
      (received squitter) classified
      (record classified { addrtype = addr_adsb_icao; source = source_adsb }) refl squitter_format
      refl squitter_checked

-- A surveillance reply whose checksum is the address 0x4840d6.
abbrev reply : Message
reply = record (received squitter) { msgtype = 4; msgbits = 56; crc = 0x4840d6 }

abbrev answered : Message
answered = record reply {
  maybe_addr = 0x4840d6;
  source = source_mode_s;
  addr = 0x4840d6;
  addrtype = addr_mode_s;
}

reply_checked : check_crc modes blind (one_known 0x4840d6) reply ≡ continued answered
unfolding check_crc check_address_parity ◌then_do◌ icao_filter_test test_table probe addr_hash
    mix_fasthash
reply_checked = refl

check_crc-icao_filter_test_example :
    (answered.addr ≡ 0x4840d6) × (icao_filter_test (one_known 0x4840d6) answered.addr ≡ true)
check_crc-icao_filter_test_example =
    check_crc-icao_filter_test blind modes refl (one_known 0x4840d6) reply answered refl
      reply_checked

-- A squitter with a checksum that no table explains.
abbrev broken : Message
broken = record classified { crc = 5 }

broken_score : score_type blind modes (one_known 5) squitter 17 5 112 ≡ some minus_2
unfolding score_type score_squitter modes_checksum_diagnose search_table
broken_score = refl

score_type-check_crc_example : Rejected (check_crc modes blind (one_known 5) broken)
score_type-check_crc_example =
    score_type-check_crc blind modes refl (one_known 5) broken refl broken_score

decode_mode_a_message-mode_c_to_mode_a_example :
    ((decode_mode_a_message modes
        (received squitter)
        (mode_c_to_mode_a mode_ac_init (sub_ℕ 363 13))).baro_alt_valid
      ≡ true)
    × ((decode_mode_a_message modes
          (received squitter)
          (mode_c_to_mode_a mode_ac_init (sub_ℕ 363 13))).baro_alt
        ≡ hundreds (sub_ℕ 363 13))
decode_mode_a_message-mode_c_to_mode_a_example =
    decode_mode_a_message-mode_c_to_mode_a modes (received squitter) 363 refl (omega arith)
      (omega arith)
