-- ===== src/ModeS/Decode.antt =====
-- mode_s.c: `decodeModesMessage`. Each of its parts is a function; a part that can end the decoding
-- returns a `Step`.
pub mod Body
use hpr_readsb.Base.{ℕ, zero, suc, ◌+◌, ◌-◌, ◌*◌, ◌/◌, ◌%◌, bit_and, bit_or}
use hpr_readsb.Base.{Bool, true, false, not, ◌&&◌, ◌||◌, Option, none, some, List}
use hpr_readsb.Base.{◌==◌, ltb, leb, if◌then◌else◌, take}
use hpr_readsb.Base.Int.{ℤ, pos, negsuc, pos_part}
use hpr_readsb.Crc.{modes_checksum}
use hpr_readsb.Crc.Table.{SortAndSearch, Diagnosis, failed_assertion, unrepairable, repairable}
use hpr_readsb.Crc.Table.{modes_checksum_diagnose, modes_checksum_fix, ErrorInfo}
use hpr_readsb.IcaoFilter.{Filter, icao_filter_test, icao_filter_add}
use hpr_readsb.ModeS.Bits.{getbits, modes_message_len_by_type}
use hpr_readsb.ModeS.Message.{
  Modes, Message, source_mode_s, source_mode_s_checked, source_adsb, source_mlat, source_sbs,
  addr_adsb_icao, addr_adsb_icao_nt, addr_mlat, addr_other, addr_mode_s, addr_unknown, hex_unknown,
  magic_mlat_timestamp,
}
use hpr_readsb.ModeS.Score.{fix_df17_msgtype, all_zeros, minus_1, minus_2}

-- How a part of the decoder ends: a failed assertion or a write outside the message, a `return`,
-- or the next part.
pub data Step : Type 0 where
  failed : Step
  returned continued : Message → Step

infixl 5 ◌then_do◌
unfoldable pub ◌then_do◌ : Step → (Message → Step) → Step
failed then_do f = failed
returned m then_do f = returned m
continued m then_do f = f m

module _ (modes : Modes) where
  -- `decode_return`
  unfoldable pub decode_return : ℤ → Message → Step
  decode_return x m =
      let done = record m { decode_result = x } in
      if modes.decode_all then continued done else returned done

  -- The part up to the test for a message of zeros.
  unfoldable pub begin : Message → Step
  begin m =
      let copied = record m {
        verbatim = if modes.net_verbatim then take 14 m.msg else m.verbatim;
        decode_result = pos 0;
      } in
      if all_zeros m.msg 7 then decode_return minus_2 copied else continued copied

  -- The format, the checksum and the fields that have a value other than zero by default.
  unfoldable pub classify : Message → Step
  classify m = elim (fix_df17_msgtype modes m.msg (getbits m.msg 1 5)) [
    | none ↦ failed
    | some f ↦
        let msgbits = modes_message_len_by_type f.msgtype in
        elim (modes_checksum f.msg msgbits) [
          | none ↦ failed
          | some crc ↦ continued (record m {
            msg = f.msg;
            msgtype = f.msgtype;
            msgbits = msgbits;
            correctedbits = if f.orig_byte == 0 then 0 else 1;
            crc = crc;
            addr = hex_unknown;
            maybe_addr = hex_unknown;
            addrtype = addr_unknown;
          })
        ]
  ]

  module _ (lib : SortAndSearch) (filter : Filter) where
    -- Cases 0, 4, 5, 16 and 24 to 31.
    unfoldable pub check_address_parity : Message → Step
    check_address_parity m =
        let maybe = record m { maybe_addr = m.crc } in
        let tested =
          if icao_filter_test filter m.crc then continued maybe else decode_return minus_1 maybe in
        tested then_do λ k.
        continued (record k { source = source_mode_s; addr = k.crc; addrtype = addr_mode_s })

    -- What case 11 does with a diagnosis.
    unfoldable pub repair_all_call : Message → Diagnosis → Step
    repair_all_call m failed_assertion = failed
    repair_all_call m unrepairable = decode_return minus_2 m
    repair_all_call m (repairable ei) =
        if ltb 1 (pos_part ei.errors)
        then decode_return minus_2 m
        else elim (modes_checksum_fix m.msg (some ei)) [
          | none ↦ failed
          | some fixed ↦
              let addr = getbits fixed 9 32 in
              let done = record m {
                correctedbits = pos_part ei.errors;
                iid = 0;
                msg = fixed;
                maybe_addr = addr;
              } in
              if icao_filter_test filter addr then continued done else decode_return minus_1 done
        ]

    -- Case 11.
    unfoldable pub check_all_call : Message → Step
    check_all_call m =
        let named = record m { iid = bit_and m.crc 0x7f; maybe_addr = getbits m.msg 9 32 } in
        let repaired =
          if bit_and m.crc 0xffff80 == 0
          then continued named
          else repair_all_call named (modes_checksum_diagnose lib modes.tables m.crc m.msgbits) in
        repaired then_do λ k.
        continued (record k { source = source_mode_s_checked; addrtype = addr_mode_s })

    -- What cases 17 and 18 do with a diagnosis.
    unfoldable pub repair_squitter : Message → Diagnosis → Step
    repair_squitter m failed_assertion = failed
    repair_squitter m unrepairable = decode_return minus_2 m
    repair_squitter m (repairable ei) = elim (modes_checksum_fix m.msg (some ei)) [
      | none ↦ failed
      | some fixed ↦
          let addr1 = getbits m.msg 9 32 in
          let addr2 = getbits fixed 9 32 in
          let done = record m {
            correctedbits = pos_part ei.errors;
            msg = fixed;
            maybe_addr = addr2;
          } in
          if not (addr1 == addr2) && not (icao_filter_test filter addr2)
          then decode_return minus_1 done
          else continued done
    ]

    -- Cases 17 and 18.
    unfoldable pub check_squitter : Message → Step
    check_squitter m =
        let repaired =
          if m.crc == 0
          then continued m
          else repair_squitter m (modes_checksum_diagnose lib modes.tables m.crc m.msgbits) in
        repaired then_do λ k.
        continued (record k { addrtype = addr_adsb_icao; source = source_adsb })

    -- Cases 20 and 21.
    unfoldable pub check_comm_b : Message → Step
    check_comm_b m =
        let maybe = record m { maybe_addr = m.crc } in
        let known = record m {
          maybe_addr = m.crc;
          addrtype = addr_mode_s;
          source = source_mode_s;
          addr = m.crc;
        } in
        if icao_filter_test filter m.crc then continued known else decode_return minus_1 maybe

    -- The switch over the format.
    unfoldable pub check_crc : Message → Step
    check_crc m =
        let t = m.msgtype in
        if t == 0 || t == 4 || t == 5 || t == 16 || (leb 24 t && leb t 31)
        then check_address_parity m
        else if t == 11
        then check_all_call m
        else if t == 17 || t == 18
        then check_squitter m
        else if t == 20 || t == 21
        then check_comm_b m
        else decode_return minus_2 m

    -- The decoder up to the bulk of the message.
    unfoldable pub check_message : Message → Step
    check_message m = (begin m then_do classify) then_do check_crc
