-- ===== src/ModeS/SquitterTests.antt =====
-- Extended squitters, with integers for the doubles.
use hpr_readsb.Base.{ℕ, ◌≡◌, refl, arith, false, some, none, List, [], ◌∷◌}
use hpr_readsb.Base.Doubles.Integers.{integers}
use hpr_readsb.Base.Int.{pos, negsuc}
use hpr_readsb.ModeAc.{mode_ac_init}
use hpr_readsb.ModeS.Bits.{getbit, getbits}
use hpr_readsb.ModeS.Message.{Message}
use hpr_readsb.ModeS.Sample.{received}
use hpr_readsb.ModeS.Velocity.{velocity, vert_rate, signed_field, as_int, heading_invalid}
use hpr_readsb.ModeS.Rates.{bits_of, steps_of, payload_number, velocity-steps_of}
use hpr_readsb.ModeS.Status.{
  Accuracy, Opstatus, Status, decode_es_target_status, target_status_v2, selected_altitude,
  pressure_setting, selected_heading, selected_modes, sil_invalid, nav_alt_invalid,
}
use hpr_readsb.ModeS.Squitter.{decode_extended_squitter}
use hpr_readsb.ModeS.Kept.{decode_extended_squitter-addr}

-- A ground speed of 159 knots, descending at 832 feet each minute.
abbrev descending : List ℕ
descending = 0x99 ∷ 0x44 ∷ 0x09 ∷ 0x94 ∷ 0x08 ∷ 0x38 ∷ 0x17 ∷ []

descent : vert_rate integers (pos 3) descending ≡ some (negsuc 831)
unfolding vert_rate getbits getbit signed_field as_int
descent = refl

velocity-steps_of_example :
    ((velocity integers (pos 3) descending 1).baro_rate ≡ none)
    × ((velocity integers (pos 3) descending 1).geom_rate ≡ some (negsuc 831))
    × ((velocity integers (pos 3) descending 1).geom_delta ≡ some (pos 550))
unfolding bits_of steps_of payload_number
velocity-steps_of_example = velocity-steps_of integers (pos 3) descending 1 (
  omega arith,
  (omega arith, (omega arith, (omega arith, (omega arith, (omega arith, (omega arith, tt)))))),
)

-- Target state and status of version 2: a selected altitude of 17 steps less one, no emergency.
abbrev targeting : List ℕ
targeting = 0xea ∷ 0x01 ∷ 0x10 ∷ 0 ∷ 0 ∷ 0x02 ∷ 0x80 ∷ []

abbrev no_accuracy : Accuracy
no_accuracy = record {
  nic_a_valid = false;
  nic_c_valid = false;
  nic_baro_valid = false;
  nac_p_valid = false;
  nac_v_valid = false;
  gva_valid = false;
  sda_valid = false;
  nic_a = false;
  nic_c = false;
  nic_baro = false;
  nac_p = 0;
  nac_v = 0;
  sil = 0;
  gva = 0;
  sda = 0;
  sil_type = sil_invalid;
}

abbrev no_opstatus : Opstatus
no_opstatus = record {
  tah = heading_invalid;
  hrd = heading_invalid;
  cc_lw = 0;
  cc_antenna_offset = 0;
  valid = false;
  version = 0;
  om_acas_ra = false;
  om_ident = false;
  om_atc = false;
  om_saf = false;
  cc_acas = false;
  cc_cdti = false;
  cc_1090_in = false;
  cc_arv = false;
  cc_ts = false;
  cc_tc = 0;
  cc_uat_in = false;
  cc_poa = false;
  cc_b2_low = false;
  cc_lw_valid = false;
}

-- A message that is all zeros.
abbrev no_status : Status integers (pos 3)
no_status = record {
  nav = record {
    fms_altitude = 0;
    mcp_altitude = 0;
    qnh = pos 0;
    heading = pos 0;
    heading_valid = false;
    fms_altitude_valid = false;
    mcp_altitude_valid = false;
    qnh_valid = false;
    modes_valid = false;
    heading_type = heading_invalid;
    altitude_source = nav_alt_invalid;
    modes = 0;
  };
  accuracy = no_accuracy;
  opstatus = no_opstatus;
  emergency = none;
}

-- The altitude on the control panel is 16 steps of 32 feet.
selected :
    (decode_es_target_status integers
      (pos 3)
      (record (received []) { me = targeting })
      false
      no_status).1.nav.mcp_altitude
    ≡ 512
unfolding decode_es_target_status target_status_v2 selected_altitude pressure_setting
    selected_heading selected_modes getbits getbit
selected = refl

abbrev squitter_of : List ℕ → Message
squitter_of payload = record (received []) { msgtype = 17; addr = 0x485020; me = payload }

decode_extended_squitter-addr_example :
    (decode_extended_squitter integers
      (pos 3)
      mode_ac_init
      no_status
      (squitter_of targeting)).0.addr
    ≡ 0x485020
decode_extended_squitter-addr_example =
    decode_extended_squitter-addr integers (pos 3) mode_ac_init no_status (squitter_of targeting)
      refl
