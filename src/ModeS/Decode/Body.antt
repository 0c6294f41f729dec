-- ===== src/ModeS/Decode/Body.antt =====
-- mode_s.c: the second half of `decodeModesMessage`, where nothing ends the decoding: the fields of
-- each format, the filter and the overrides by source. The decoders of the Comm-B payload and of
-- the extended squitter are arguments.
use hpr_readsb.Base.{ℕ}
use hpr_readsb.Base.{Bool, true, false, not, ◌&&◌, ◌||◌, Option, none, some}
use hpr_readsb.Base.{◌==◌, ltb, leb, if◌then◌else◌, take, drop, get_or}
use hpr_readsb.Base.Int.{ℤ, pos, negsuc, neg_part}
use hpr_readsb.Crc.Table.{SortAndSearch}
use hpr_readsb.IcaoFilter.{Filter, icao_filter_add}
use hpr_readsb.ModeAc.{squawk_hex_2_dec}
use hpr_readsb.ModeS.Bits.{getbit, getbits}
use hpr_readsb.ModeS.Fields.{decode_ac13_field, decode_id13_field}
use hpr_readsb.ModeS.Message.{
  Modes, Message, ag_ground, ag_airborne, ag_uncertain, source_mlat, source_sbs, addr_adsb_icao_nt,
  addr_mlat, addr_other, magic_mlat_timestamp,
}
use hpr_readsb.ModeS.Decode.{failed, returned, continued, check_message}

abbrev pub is_zero : ℤ → Bool
is_zero (pos n) = n == 0
is_zero (negsuc n) = false

-- Address announced
unfoldable pub decode_aa : Message → Message
decode_aa m =
    let aa = getbits m.msg 9 32 in
    if m.msgtype == 11 || m.msgtype == 17 || m.msgtype == 18
    then record m {
      aa = aa;
      maybe_addr = aa;
      addr = if is_zero m.decode_result then aa else m.addr;
    }
    else m

-- Altitude code
unfoldable pub decode_ac : Modes → Message → Message
decode_ac modes m =
    let ac = getbits m.msg 20 32 in
    let alt = decode_ac13_field modes.ac_tables ac in
    let valid = not (neg_part alt.value == 9999) in
    if m.msgtype == 0 || m.msgtype == 4 || m.msgtype == 16 || m.msgtype == 20
    then if ac == 0 then record m { ac = ac } else record m {
      ac = ac;
      baro_alt = alt.value;
      baro_alt_unit = alt.unit;
      alt_q_bit = if valid then alt.q_bit else m.alt_q_bit;
      baro_alt_valid = if valid then true else m.baro_alt_valid;
    }
    else m

-- Capability
unfoldable pub decode_ca : Message → Message
decode_ca m =
    let ca = getbits m.msg 6 8 in
    if m.msgtype == 11 || m.msgtype == 17
    then record m {
      ca = ca;
      airground =
          if ca == 0 || ca == 6 || ca == 7
          then ag_uncertain
          else if ca == 4
          then ag_ground
          else if ca == 5
          then ag_airborne
          else m.airground;
    }
    else m

-- Cross-link capability, control field and downlink request
unfoldable pub decode_cc_cf_dr : Message → Message
decode_cc_cf_dr m = record m {
  cc_field = if m.msgtype == 0 then getbit m.msg 7 else m.cc_field;
  cf = if m.msgtype == 18 then getbits m.msg 6 8 else m.cf;
  dr =
      if m.msgtype == 4 || m.msgtype == 5 || m.msgtype == 20 || m.msgtype == 21
      then getbits m.msg 9 13
      else m.dr;
}

-- Flight status
unfoldable pub decode_fs : Message → Message
decode_fs m =
    let fs = getbits m.msg 6 8 in
    if m.msgtype == 4 || m.msgtype == 5 || m.msgtype == 20 || m.msgtype == 21
    then record m {
      fs = fs;
      alert_valid = ltb fs 6;
      spi_valid = ltb fs 6;
      airground =
          if fs == 0 || fs == 2 || fs == 4 || fs == 5
          then ag_uncertain
          else if fs == 1 || fs == 3
          then ag_ground
          else m.airground;
      alert = if fs == 2 || fs == 3 || fs == 4 then true else m.alert;
      spi = if fs == 4 || fs == 5 then true else m.spi;
    }
    else m

-- `setSquawkFromID13`
unfoldable pub set_squawk_from_id13 : Message → ℕ → Message
set_squawk_from_id13 m id13 = record m {
  squawk_hex = decode_id13_field id13;
  squawk_dec = squawk_hex_2_dec (decode_id13_field id13);
  squawk_valid = true;
}

-- Identity
unfoldable pub decode_id : Message → Message
decode_id m =
    let id13 = getbits m.msg 20 32 in
    let named = record m { id_field = id13 } in
    if m.msgtype == 5 || m.msgtype == 21
    then if id13 == 0 then named else set_squawk_from_id13 named id13
    else m

abbrev pub is_elm : Message → Bool
is_elm m = leb 24 m.msgtype && leb m.msgtype 31

-- Control, ELM
unfoldable pub decode_ke : Message → Message
decode_ke m = if is_elm m then record m { ke = getbit m.msg 4 } else m

module _ (modes : Modes) (decode_comm_b decode_extended_squitter : Message → Message) where
  -- Comm-B payload
  unfoldable pub decode_mb : Message → Message
  decode_mb m =
      if m.msgtype == 20 || m.msgtype == 21
      then decode_comm_b (record m { mb = take 7 (drop 4 m.msg) })
      else m

  -- Comm-D payload
  unfoldable pub decode_md : Message → Message
  decode_md m = if is_elm m then record m { md = take 10 (drop 1 m.msg) } else m

  -- Extended squitter payload
  unfoldable pub decode_me : Message → Message
  decode_me m =
      if m.msgtype == 17 || m.msgtype == 18
      then decode_extended_squitter (record m { me = take 7 (drop 4 m.msg) })
      else m

  -- ACAS payload
  unfoldable pub decode_mv : Message → Message
  decode_mv m =
      let mv = take 7 (drop 4 m.msg) in
      if m.msgtype == 16
      then record m {
        mv = mv;
        acas_ra_valid = if get_or mv 0 0 == 0x30 then true else m.acas_ra_valid;
      }
      else m

  -- Number of the D-segment, reply information, sensitivity level and utility message
  unfoldable pub decode_nd_ri_sl_um : Message → Message
  decode_nd_ri_sl_um m = record m {
    nd = if is_elm m then getbits m.msg 5 8 else m.nd;
    ri = if m.msgtype == 0 || m.msgtype == 16 then getbits m.msg 14 17 else m.ri;
    sl = if m.msgtype == 0 || m.msgtype == 16 then getbits m.msg 9 11 else m.sl;
    um =
        if m.msgtype == 4 || m.msgtype == 5 || m.msgtype == 20 || m.msgtype == 21
        then getbits m.msg 14 19
        else m.um;
  }

  -- Vertical status
  unfoldable pub decode_vs : Message → Message
  decode_vs m =
      let vs = getbit m.msg 6 in
      if m.msgtype == 0 || m.msgtype == 16
      then record m { vs = vs; airground = if vs == 0 then ag_uncertain else ag_ground }
      else m

  -- The bulk of the message
  unfoldable pub decode_fields : Message → Message
  decode_fields m =
      let front =
        decode_ke
          (decode_id (decode_fs (decode_cc_cf_dr (decode_ca (decode_ac modes (decode_aa m)))))) in
      decode_vs (decode_nd_ri_sl_um (decode_mv (decode_me (decode_md (decode_mb front)))))

  -- Is the address one to remember?
  unfoldable pub is_reliable : Message → Bool
  is_reliable m =
      is_zero m.decode_result
      && m.correctedbits == 0
      && (m.msgtype == 17 || (m.msgtype == 11 && m.iid == 0))

  -- The overrides by source and address range
  unfoldable pub override_source : Message → Message
  override_source m =
      let mlat =
        if m.remote && m.timestamp == magic_mlat_timestamp
        then record m { source = source_mlat; addrtype = addr_mlat }
        else m in
      let bad =
        (modes.net_ingest || modes.garbage_ports)
        && mlat.remote
        && mlat.timestamp == 0
        && (not (mlat.msgtype == 18) || mlat.addrtype == addr_adsb_icao_nt) in
      let sorted =
        if bad
        then record mlat {
          garbage = true;
          source = source_sbs;
          addrtype = if leb addr_other mlat.addrtype then addr_other else mlat.addrtype;
        }
        else mlat in
      let bogus =
        sorted.remote
        && sorted.msgtype == 18
        && leb 0x899000 sorted.addr
        && ltb sorted.addr 0x899200
        && modes.garbage_ports in
      if bogus then record sorted { garbage = true } else sorted

  -- What `decodeModesMessage` leaves: the message, whose `decode_result` it returns, and the filter.
  pub record Decoded : Type 0 where
    pub message : Message
    pub filter : Filter

  -- The part after the fields.
  unfoldable pub finish : Filter → Message → Option Decoded
  finish filter m =
      let done = override_source m in
      if is_reliable m
      then elim (icao_filter_add filter m.addr) [
        | none ↦ none
        | some f ↦ some (record { message = done; filter = f })
      ]
      else some (record { message = done; filter = filter })

  -- `decodeModesMessage`
  unfoldable pub decode_modes_message : SortAndSearch → Filter → Message → Option Decoded
  decode_modes_message lib filter m = elim (check_message modes lib filter m) [
    | failed ↦ none
    | returned r ↦ some (record { message = r; filter = filter })
    | continued c ↦ finish filter (decode_fields c)
  ]
