-- ===== src/ModeS/Squitter.antt =====
-- mode_s.c: `decodeExtendedSquitter`.
use hpr_readsb.Base.{ℕ, bit_or}
use hpr_readsb.Base.{Bool, true, false, not, ◌&&◌, ◌||◌, ◌==◌, leb, if◌then◌else◌, Option}
use hpr_readsb.Base.Doubles.{Doubles}
use hpr_readsb.ModeAc.{AcTables}
use hpr_readsb.ModeS.Bits.{getbit, getbits}
use hpr_readsb.ModeS.Message.{
  Message, addr_adsb_icao_nt, addr_unknown, source_nt, source_tisb, source_adsr,
}
use hpr_readsb.ModeS.ModeA.{modes_non_icao_address}
use hpr_readsb.ModeS.Payload.{
  decode_es_ident_and_category, addr_adsb_other, addr_tisb_icao, addr_adsr_icao,
}
use hpr_readsb.ModeS.Velocity.{Velocity, decode_es_airborne_velocity}
use hpr_readsb.ModeS.Positions.{
  Surface, Airborne, imf_if, decode_es_surface_position, decode_es_airborne_position,
  decode_es_test_message, decode_es_aircraft_status,
}
use hpr_readsb.ModeS.Status.{Status, decode_es_target_status}
use hpr_readsb.ModeS.Status.Operational.{decode_es_operational_status}

abbrev pub addr_tisb_other : ℕ
addr_tisb_other = 11

-- The message after the test of the CF field, `check_imf`, and whether the function returns there.
pub record Format : Type 0 where
  pub message : Message
  pub check_imf : Bool
  pub ends : Bool

-- The switch over CF, for a message of DF 18.
unfoldable pub es_format_18 : Message → Format
es_format_18 m =
    let marked = bit_or m.addr modes_non_icao_address in
    let tisb = record m { source = source_tisb; addrtype = addr_tisb_icao } in
    if m.cf == 0
    then record {
      message = record m { addrtype = addr_adsb_icao_nt; source = source_nt };
      check_imf = false;
      ends = false;
    }
    else if m.cf == 1
    then record {
      message = record m { addrtype = addr_adsb_other; addr = marked };
      check_imf = false;
      ends = false;
    }
    else if m.cf == 2
    then record { message = tisb; check_imf = true; ends = false }
    else if m.cf == 3
    then record { message = imf_if (not (getbit m.me 1 == 0)) tisb; check_imf = false; ends = true }
    else if m.cf == 5
    then record {
      message = record m { addrtype = addr_tisb_other; source = source_tisb; addr = marked };
      check_imf = false;
      ends = false;
    }
    else if m.cf == 6
    then record {
      message = record m { addrtype = addr_adsr_icao; source = source_adsr };
      check_imf = true;
      ends = false;
    }
    else record {
      message = record m { addrtype = addr_unknown; addr = marked };
      check_imf = false;
      ends = true;
    }

unfoldable pub es_format : Message → Format
es_format m =
    if m.msgtype == 18
    then es_format_18 m
    else record { message = m; check_imf = false; ends = false }

module _ (d : Doubles) (pi : d.Double) where
  -- What a decoder stores apart from the message.
  pub data Stored : Type 0 where
    nothing : Stored
    stored_velocity : Option (Velocity d pi) → Stored
    stored_surface : Surface d pi → Stored
    stored_airborne : Airborne → Stored
    stored_emergency : Option ℕ → Stored
    stored_status : Status d pi → Stored

  -- The switch over the type of the message; `before` is what a status is decoded into.
  unfoldable pub es_payload : AcTables → Status d pi → Message → Bool → Message × Stored
  es_payload tables before m check_imf =
      let t = m.metype in
      let velocity = decode_es_airborne_velocity d pi m check_imf in
      let surface = decode_es_surface_position d pi m check_imf in
      let airborne = decode_es_airborne_position tables m check_imf in
      let status = decode_es_aircraft_status m check_imf in
      let target = decode_es_target_status d pi m check_imf before in
      let operational = decode_es_operational_status d pi m check_imf before in
      if leb 1 t && leb t 4
      then (decode_es_ident_and_category m, nothing)
      else if t == 19
      then (velocity.0, stored_velocity velocity.1)
      else if leb 5 t && leb t 8
      then (surface.0, stored_surface surface.1)
      else if t == 0 || (leb 9 t && leb t 18) || (leb 20 t && leb t 22)
      then (airborne.0, stored_airborne airborne.1)
      else if t == 23
      then (decode_es_test_message m, nothing)
      else if t == 28
      then (status.0, stored_emergency status.1)
      else if t == 29
      then (target.0, stored_status target.1)
      else if t == 31
      then (operational.0, stored_status operational.1)
      else (m, nothing)

  -- `decodeExtendedSquitter`
  unfoldable pub decode_extended_squitter : AcTables → Status d pi → Message → Message × Stored
  decode_extended_squitter tables before m =
      let format = es_format (record m { metype = getbits m.me 1 5 }) in
      if format.ends
      then (format.message, nothing)
      else es_payload tables before format.message format.check_imf
