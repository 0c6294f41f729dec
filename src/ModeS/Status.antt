-- ===== src/ModeS/Status.antt =====
-- readsb.h: the parts of a message on navigation, accuracy and operational status; mode_s.c:
-- `decodeESTargetStatus`.
pub mod Operational
use hpr_readsb.Base.{ℕ, ◌+◌, ◌-◌, ◌*◌, ◌%◌, ◌^◌, Bool, true, false, not, ◌&&◌, ◌||◌, bit_or}
use hpr_readsb.Base.{Option, none, some, List, ◌==◌, if◌then◌else◌}
use hpr_readsb.Base.Doubles.{Doubles}
use hpr_readsb.ModeS.Bits.{bit, getbits}
use hpr_readsb.ModeS.Message.{Message}
use hpr_readsb.ModeS.Velocity.{HeadingType, heading_ground_track, heading_magnetic_or_true, of_nat}
use hpr_readsb.ModeS.Positions.{imf_if}

-- `sil_type_t`
pub data SilType : Type 0 where
  sil_invalid sil_unknown sil_per_sample sil_per_hour : SilType

-- `nav_altitude_source_t`
pub data NavAltitudeSource : Type 0 where
  nav_alt_invalid nav_alt_unknown nav_alt_aircraft nav_alt_mcp nav_alt_fms : NavAltitudeSource

-- `nav_modes_t`
abbrev pub nav_mode_autopilot : ℕ
nav_mode_autopilot = 1

abbrev pub nav_mode_vnav : ℕ
nav_mode_vnav = 2

abbrev pub nav_mode_alt_hold : ℕ
nav_mode_alt_hold = 4

abbrev pub nav_mode_approach : ℕ
nav_mode_approach = 8

abbrev pub nav_mode_lnav : ℕ
nav_mode_lnav = 16

abbrev pub nav_mode_tcas : ℕ
nav_mode_tcas = 32

-- The fields of `accuracy` that the decoders of a status set.
pub record Accuracy : Type 0 where
  pub nic_a_valid : Bool
  pub nic_c_valid : Bool
  pub nic_baro_valid : Bool
  pub nac_p_valid : Bool
  pub nac_v_valid : Bool
  pub gva_valid : Bool
  pub sda_valid : Bool
  pub nic_a : Bool
  pub nic_c : Bool
  pub nic_baro : Bool
  pub nac_p : ℕ
  pub nac_v : ℕ
  pub sil : ℕ
  pub gva : ℕ
  pub sda : ℕ
  pub sil_type : SilType

-- The fields of `opstatus` that they set.
pub record Opstatus : Type 0 where
  pub tah : HeadingType
  pub hrd : HeadingType
  pub cc_lw : ℕ
  pub cc_antenna_offset : ℕ
  pub valid : Bool
  pub version : ℕ
  pub om_acas_ra : Bool
  pub om_ident : Bool
  pub om_atc : Bool
  pub om_saf : Bool
  pub cc_acas : Bool
  pub cc_cdti : Bool
  pub cc_1090_in : Bool
  pub cc_arv : Bool
  pub cc_ts : Bool
  pub cc_tc : ℕ
  pub cc_uat_in : Bool
  pub cc_poa : Bool
  pub cc_b2_low : Bool
  pub cc_lw_valid : Bool

-- Bits 40 to 46, which both versions of a target state have.
unfoldable pub target_accuracy : List ℕ → Accuracy → Accuracy
target_accuracy me a = record a {
  nac_p_valid = true;
  nac_p = getbits me 40 43;
  nic_baro_valid = true;
  nic_baro = bit me 44;
  sil = getbits me 45 46;
  sil_type = sil_unknown;
}

module _ (d : Doubles) (pi : d.Double) where
  -- `nav`
  pub record Nav : Type 0 where
    pub fms_altitude : ℕ
    pub mcp_altitude : ℕ
    pub qnh : d.Double
    pub heading : d.Double
    pub heading_valid : Bool
    pub fms_altitude_valid : Bool
    pub mcp_altitude_valid : Bool
    pub qnh_valid : Bool
    pub modes_valid : Bool
    pub heading_type : HeadingType
    pub altitude_source : NavAltitudeSource
    pub modes : ℕ

  -- The parts of a message that a status is decoded into; `emergency` is `none` where
  -- `emergency_valid` is 0.
  pub record Status : Type 0 where
    pub nav : Nav
    pub accuracy : Accuracy
    pub opstatus : Opstatus
    pub emergency : Option ℕ

  -- `modes_valid = 1`, and one more mode.
  abbrev pub put_mode : ℕ → Nav → Nav
  put_mode mode n = record n { modes_valid = true; modes = bit_or n.modes mode }

  -- Version 1, bits 8 and 9.
  unfoldable pub vertical_source : List ℕ → Nav → Nav
  vertical_source me n =
      let source = getbits me 8 9 in
      if source == 1
      then record n { altitude_source = nav_alt_mcp }
      else if source == 2
      then record n { altitude_source = nav_alt_aircraft }
      else if source == 3
      then record n { altitude_source = nav_alt_fms }
      else n

  unfoldable pub acquiring_mode : NavAltitudeSource → ℕ
  acquiring_mode nav_alt_fms = nav_mode_vnav
  acquiring_mode s = nav_mode_autopilot

  unfoldable pub maintaining_mode : NavAltitudeSource → ℕ
  maintaining_mode nav_alt_fms = nav_mode_vnav
  maintaining_mode nav_alt_aircraft = nav_mode_alt_hold
  maintaining_mode s = nav_mode_autopilot

  -- Bits 14 and 15.
  unfoldable pub vertical_mode : List ℕ → Nav → Nav
  vertical_mode me n =
      let mode = getbits me 14 15 in
      if mode == 1
      then put_mode (acquiring_mode n.altitude_source) n
      else if mode == 2
      then put_mode (maintaining_mode n.altitude_source) n
      else n

  unfoldable pub put_altitude_of : NavAltitudeSource → ℕ → Nav → Nav
  put_altitude_of nav_alt_mcp alt n = record n { mcp_altitude_valid = true; mcp_altitude = alt }
  put_altitude_of nav_alt_fms alt n = record n { fms_altitude_valid = true; fms_altitude = alt }
  put_altitude_of s alt n = n

  -- Bits 16 to 25, an unsigned altitude that wraps below 0.
  unfoldable pub target_altitude : List ℕ → Nav → Nav
  target_altitude me n =
      put_altitude_of n.altitude_source ((2 ^ 32 - 1000 + 100 * getbits me 16 25) % 2 ^ 32) n

  -- Bits 26 to 37.
  unfoldable pub target_heading : List ℕ → Nav → Nav
  target_heading me n = if getbits me 26 27 == 0 then n else record n {
    heading_valid = true;
    heading = d.to_float (of_nat d pi (getbits me 28 36));
    heading_type = if bit me 37 then heading_ground_track else heading_magnetic_or_true;
  }

  -- Bits 38 and 39.
  unfoldable pub horizontal_mode : List ℕ → Nav → Nav
  horizontal_mode me n =
      let mode = getbits me 38 39 in
      let by = if getbits me 26 27 == 3 then nav_mode_lnav else nav_mode_autopilot in
      if mode == 1 || mode == 2 then put_mode by n else n

  -- Bits 52 and 53.
  unfoldable pub tcas_status : List ℕ → Nav → Nav
  tcas_status me n =
      let tcas = getbits me 52 53 in
      if tcas == 1
      then record n { modes_valid = true }
      else if tcas == 2 || tcas == 3
      then put_mode nav_mode_tcas n
      else record n { modes = bit_or n.modes nav_mode_tcas }

  -- Target state and status, version 1.
  unfoldable pub target_status_v1 : List ℕ → Status → Status
  target_status_v1 me s =
      let vertical = target_altitude me (vertical_mode me (vertical_source me s.nav)) in
      record s {
        nav = tcas_status me (horizontal_mode me (target_heading me vertical));
        accuracy = target_accuracy me s.accuracy;
        emergency = some (getbits me 54 56);
      }

  -- Version 2, bits 9 to 20.
  unfoldable pub selected_altitude : List ℕ → Nav → Nav
  selected_altitude me n =
      let alt_bits = getbits me 10 20 in
      let alt = (alt_bits - 1) * 32 in
      if alt_bits == 0
      then n
      else if bit me 9
      then record n { fms_altitude_valid = true; fms_altitude = alt }
      else record n { mcp_altitude_valid = true; mcp_altitude = alt }

  -- Bits 21 to 29.
  unfoldable pub pressure_setting : List ℕ → Nav → Nav
  pressure_setting me n =
      let baro_bits = getbits me 21 29 in
      let steps = d.times (of_nat d pi (baro_bits - 1)) (d.decimal 8 1) in
      if baro_bits == 0
      then n
      else record n { qnh_valid = true; qnh = d.to_float (d.add (of_nat d pi 800) steps) }

  -- Bits 30 to 39.
  unfoldable pub selected_heading : List ℕ → Nav → Nav
  selected_heading me n =
      let turn = d.times (of_nat d pi (getbits me 31 39)) (of_nat d pi 180) in
      if bit me 30
      then record n {
        heading_valid = true;
        heading = d.to_float (d.over turn (of_nat d pi 256));
        heading_type = heading_magnetic_or_true;
      }
      else n

  -- Bits 47 to 54.
  unfoldable pub selected_modes : List ℕ → Nav → Nav
  selected_modes me n =
      let first =
        bit_or (if bit me 48 then nav_mode_autopilot else 0)
          (if bit me 49 then nav_mode_vnav else 0) in
      let second = bit_or first (if bit me 50 then nav_mode_alt_hold else 0) in
      let third = bit_or second (if bit me 52 then nav_mode_approach else 0) in
      let fourth = bit_or third (if bit me 53 then nav_mode_tcas else 0) in
      if bit me 47
      then record n {
        modes_valid = true;
        modes = bit_or fourth (if bit me 54 then nav_mode_lnav else 0);
      }
      else n

  -- Target state and status, version 2.
  unfoldable pub target_status_v2 : List ℕ → Status → Status
  target_status_v2 me s =
      let settings = pressure_setting me (selected_altitude me s.nav) in
      record s {
        nav = selected_modes me (selected_heading me settings);
        accuracy = target_accuracy me s.accuracy;
      }

  -- `decodeESTargetStatus`
  unfoldable pub decode_es_target_status : Message → Bool → Status → Message × Status
  decode_es_target_status m check_imf s =
      let mesub = getbits m.me 6 7 in
      (
        imf_if (check_imf && bit m.me 51) (record m { mesub = mesub }),
        if mesub == 0 && not (bit m.me 11)
            then target_status_v1 m.me s
            else if mesub == 1
            then target_status_v2 m.me s
            else s,
      )
