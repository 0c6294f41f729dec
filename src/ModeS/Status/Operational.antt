-- ===== src/ModeS/Status/Operational.antt =====
-- mode_s.c: `decodeESOperationalStatus`.
use hpr_readsb.Base.{ℕ, Bool, true, not, ◌&&◌, ◌||◌, List, ◌==◌, if◌then◌else◌}
use hpr_readsb.Base.Doubles.{Doubles}
use hpr_readsb.ModeS.Bits.{bit, getbits}
use hpr_readsb.ModeS.Message.{Message}
use hpr_readsb.ModeS.Velocity.{heading_ground_track, heading_true, heading_magnetic}
use hpr_readsb.ModeS.Positions.{imf_if}
use hpr_readsb.ModeS.Status.{Accuracy, Opstatus, Status, sil_unknown, sil_per_sample, sil_per_hour}

-- The capability codes of version 0.
unfoldable pub capability_v0 : List ℕ → ℕ → Opstatus → Opstatus
capability_v0 me mesub o =
    if mesub == 0 && getbits me 9 10 == 0
    then record o { cc_acas = not (bit me 12); cc_cdti = bit me 13 }
    else o

-- The operational modes of version 1.
unfoldable pub operational_modes_v1 : List ℕ → Opstatus → Opstatus
operational_modes_v1 me o =
    if getbits me 25 26 == 0
    then record o { om_acas_ra = bit me 27; om_ident = bit me 28; om_atc = bit me 29 }
    else o

-- Its capability codes, airborne or on the surface.
unfoldable pub capability_v1 : List ℕ → ℕ → Opstatus → Opstatus
capability_v1 me mesub o =
    if mesub == 0 && getbits me 9 10 == 0 && getbits me 13 14 == 0
    then record o {
      cc_acas = not (bit me 11);
      cc_cdti = bit me 12;
      cc_arv = bit me 15;
      cc_ts = bit me 16;
      cc_tc = getbits me 17 18;
    }
    else if mesub == 1 && getbits me 9 10 == 0 && getbits me 13 14 == 0
    then record o {
      cc_poa = bit me 11;
      cc_cdti = bit me 12;
      cc_b2_low = bit me 15;
      cc_lw_valid = true;
      cc_lw = getbits me 21 24;
    }
    else o

-- `hrd`, and `tah` on the surface.
unfoldable pub headings : List ℕ → ℕ → Opstatus → Opstatus
headings me mesub o =
    let north = if bit me 54 then heading_magnetic else heading_true in
    let with_hrd = record o { hrd = north } in
    if mesub == 0
    then with_hrd
    else record with_hrd { tah = if bit me 53 then north else heading_ground_track }

-- `nic_baro`, in the air.
unfoldable pub baro_accuracy : List ℕ → ℕ → Accuracy → Accuracy
baro_accuracy me mesub a =
    if mesub == 0 then record a { nic_baro_valid = true; nic_baro = bit me 53 } else a

-- The accuracy of version 1.
unfoldable pub accuracy_v1 : List ℕ → ℕ → Accuracy → Accuracy
accuracy_v1 me mesub a = baro_accuracy me mesub (record a {
  nic_a_valid = true;
  nic_a = bit me 44;
  nac_p_valid = true;
  nac_p = getbits me 45 48;
  sil_type = sil_unknown;
  sil = getbits me 51 52;
})

-- The operational modes of version 2.
unfoldable pub operational_modes_v2 : List ℕ → Opstatus → Opstatus
operational_modes_v2 me o =
    let common = operational_modes_v1 me o in
    if getbits me 25 26 == 0 then record common { om_saf = bit me 30 } else common

-- Its capability codes.
unfoldable pub capability_v2 : List ℕ → ℕ → Opstatus → Opstatus
capability_v2 me mesub o =
    if mesub == 0 && getbits me 9 10 == 0
    then record o {
      cc_acas = bit me 11;
      cc_1090_in = bit me 12;
      cc_arv = bit me 15;
      cc_ts = bit me 16;
      cc_tc = getbits me 17 18;
      cc_uat_in = bit me 19;
    }
    else if mesub == 1 && getbits me 9 10 == 0
    then record o {
      cc_poa = bit me 11;
      cc_1090_in = bit me 12;
      cc_b2_low = bit me 15;
      cc_uat_in = bit me 16;
      cc_lw_valid = true;
      cc_lw = getbits me 21 24;
      cc_antenna_offset = getbits me 33 40;
    }
    else o

-- The accuracy among the operational modes and the capability codes of version 2.
unfoldable pub mode_accuracy_v2 : List ℕ → ℕ → Accuracy → Accuracy
mode_accuracy_v2 me mesub a =
    let with_sda =
      if getbits me 25 26 == 0 then record a { sda_valid = true; sda = getbits me 31 32 } else a in
    if mesub == 1 && getbits me 9 10 == 0
    then record with_sda {
      nac_v_valid = true;
      nac_v = getbits me 17 19;
      nic_c_valid = true;
      nic_c = bit me 20;
    }
    else with_sda

-- The accuracy of version 2.
unfoldable pub accuracy_v2 : List ℕ → ℕ → Accuracy → Accuracy
accuracy_v2 me mesub a =
    let common = record (mode_accuracy_v2 me mesub a) {
      nic_a_valid = true;
      nic_a = bit me 44;
      nac_p_valid = true;
      nac_p = getbits me 45 48;
      sil = getbits me 51 52;
      sil_type = if bit me 55 then sil_per_sample else sil_per_hour;
    } in
    let with_gva =
      if mesub == 0 then record common { gva_valid = true; gva = getbits me 49 50 } else common in
    baro_accuracy me mesub with_gva

module _ (d : Doubles) (pi : d.Double) where
  -- The switch over the version.
  unfoldable pub operational_version : List ℕ → ℕ → Status d pi → Status d pi
  operational_version me mesub s =
      let version = getbits me 41 43 in
      let o = record (s.opstatus) { valid = true; version = version } in
      let v1 = capability_v1 me mesub (operational_modes_v1 me o) in
      let v2 = capability_v2 me mesub (operational_modes_v2 me o) in
      if version == 0
      then record s { opstatus = capability_v0 me mesub o }
      else if version == 1
      then record s { opstatus = headings me mesub v1; accuracy = accuracy_v1 me mesub s.accuracy }
      else if version == 2
      then record s { opstatus = headings me mesub v2; accuracy = accuracy_v2 me mesub s.accuracy }
      else record s { opstatus = o }

  -- `decodeESOperationalStatus`
  unfoldable pub decode_es_operational_status : Message → Bool → Status d pi → Message × Status d pi
  decode_es_operational_status m check_imf s =
      let mesub = getbits m.me 6 8 in
      (
        imf_if (check_imf && bit m.me 56) (record m { mesub = mesub }),
        if mesub == 0 || mesub == 1 then operational_version m.me mesub s else s,
      )
