-- ===== src/ModeS/Score.antt =====
-- mode_s.c: the repair of the downlink format and the score of a candidate message. `none` is a
-- failed assertion, a read past the end of the message or a hash search out of bounds.
use hpr_readsb.Base.{ℕ, zero, suc, ◌+◌, ◌*◌, ◌/◌, bit_and, bit_or}
use hpr_readsb.Base.{Bool, true, not, ◌&&◌, ◌||◌, Option, none, some, List}
use hpr_readsb.Base.{◌==◌, ltb, if◌then◌else◌, get_or, set}
use hpr_readsb.Base.Int.{ℤ, pos, negsuc, pos_part}
use hpr_readsb.Crc.{modes_checksum}
use hpr_readsb.Crc.Table.{SortAndSearch, Diagnosis, failed_assertion, unrepairable, repairable}
use hpr_readsb.Crc.Table.{modes_checksum_diagnose}
use hpr_readsb.IcaoFilter.{Filter, icao_filter_test}
use hpr_readsb.ModeS.Bits.{getbits, modes_message_len_by_type}
use hpr_readsb.ModeS.Fields.{correct_aa_field}
use hpr_readsb.ModeS.Message.{Modes}

-- The message with its first byte changed, the format and the first byte as it was, or 0.
pub record FixedType : Type 0 where
  pub msg : List ℕ
  pub msgtype : ℕ
  pub orig_byte : ℕ

-- The formats one bit away from 17.
unfoldable pub near_17 : ℕ → Bool
near_17 msgtype = msgtype == 1 || msgtype == 25 || msgtype == 21 || msgtype == 19 || msgtype == 16

-- `fixDF17msgtype`
unfoldable pub fix_df17_msgtype : Modes → List ℕ → ℕ → Option FixedType
fix_df17_msgtype modes msg msgtype =
    let unchanged : FixedType = record { msg = msg; msgtype = msgtype; orig_byte = 0 } in
    let orig_byte = get_or msg 0 0 in
    let fixed = set msg 0 (bit_or (bit_and orig_byte 7) (17 * 8)) in
    if not modes.fix_df || modes.nfix_crc == 0
    then some unchanged
    else if near_17 msgtype
    then elim (modes_checksum fixed 112) [
      | none ↦ none
      | some res ↦
          if res == 0
          then some (record { msg = fixed; msgtype = 17; orig_byte = orig_byte })
          else some unchanged
    ]
    else some unchanged

-- `!memcmp(all_zeros, msg, MODES_SHORT_MSG_BYTES)`
unfoldable pub all_zeros : List ℕ → ℕ → Bool
all_zeros msg zero = true
all_zeros msg (suc n) = get_or msg n 0 == 0 && all_zeros msg n

abbrev pub minus_1 : ℤ
minus_1 = negsuc 0

abbrev pub minus_2 : ℤ
minus_2 = negsuc 1

abbrev pub either : ℕ → ℕ → Bool → ℤ
either known unknown seen = pos (if seen then known else unknown)

module _ (lib : SortAndSearch) (modes : Modes) (filter : Filter) where
  -- The cases 0, 4, 5, 16, 20 and 21, built without ENABLE_DF24.
  unfoldable pub score_address_parity : ℕ → ℤ
  score_address_parity crc = if icao_filter_test filter crc then pos 1000 else minus_1

  -- Case 11 where the checksum has more than an interrogator's bits.
  unfoldable pub score_all_call_errors : List ℕ → Diagnosis → Option ℤ
  score_all_call_errors msg failed_assertion = none
  score_all_call_errors msg unrepairable = some minus_2
  score_all_call_errors msg (repairable ei) =
      let addr = (correct_aa_field (getbits msg 9 32) ei).addr in
      if ltb 1 (pos_part ei.errors)
      then some minus_2
      else if icao_filter_test filter addr
      then some (pos 800)
      else some minus_1

  -- Case 11.
  unfoldable pub score_all_call : List ℕ → ℕ → ℕ → Option ℤ
  score_all_call msg crc msgbits =
      let seen = icao_filter_test filter (getbits msg 9 32) in
      if not (bit_and crc 0xffff80 == 0)
      then score_all_call_errors msg (modes_checksum_diagnose lib modes.tables crc msgbits)
      else if bit_and crc 0x7f == 0
      then some (either 1600 750 seen)
      else if seen
      then some (pos 1000)
      else some minus_1

  -- Cases 17 and 18.
  unfoldable pub score_squitter : List ℕ → Diagnosis → Option ℤ
  score_squitter msg failed_assertion = none
  score_squitter msg unrepairable = some minus_2
  score_squitter msg (repairable ei) =
      let addr = (correct_aa_field (getbits msg 9 32) ei).addr in
      let divisor = pos_part ei.errors + 1 in
      some (either (1800 / divisor) (1400 / divisor) (icao_filter_test filter addr))

  -- The switch over the format.
  unfoldable pub score_type : List ℕ → ℕ → ℕ → ℕ → Option ℤ
  score_type msg msgtype crc msgbits =
      if msgtype == 0
        || msgtype == 4
        || msgtype == 5
        || msgtype == 16
        || msgtype == 20
        || msgtype == 21
      then some (score_address_parity crc)
      else if msgtype == 11
      then score_all_call msg crc msgbits
      else if msgtype == 17 || msgtype == 18
      then score_squitter msg (modes_checksum_diagnose lib modes.tables crc msgbits)
      else some minus_2

  -- The part of `scoreModesMessage` after the attempt to make the format 17.
  unfoldable pub score_unfixed : List ℕ → ℕ → ℕ → Option ℤ
  score_unfixed msg msgtype validbits =
      let msgbits = modes_message_len_by_type msgtype in
      if ltb validbits msgbits
      then some minus_2
      else if all_zeros msg 7
      then some minus_2
      else elim (modes_checksum msg msgbits) [
        | none ↦ none
        | some crc ↦ score_type msg msgtype crc msgbits
      ]

  -- `scoreModesMessage`. The message is left as it was.
  unfoldable pub score_modes_message : List ℕ → ℕ → Option ℤ
  score_modes_message msg validbits =
      let msgtype = getbits msg 1 5 in
      let fixed_score = either (1800 / 2) (1400 / 2) (icao_filter_test filter (getbits msg 9 32)) in
      if ltb validbits 56
      then some minus_2
      else if ltb validbits 112
      then score_unfixed msg msgtype validbits
      else elim (fix_df17_msgtype modes msg msgtype) [
        | none ↦ none
        | some f ↦
            if f.orig_byte == 0 then score_unfixed msg msgtype validbits else some fixed_score
      ]
