-- ===== src/CommB/Capabilities.antt =====
-- comm_b.c: the registers without numbers: the empty response, BDS1,0, BDS1,7, BDS2,0 and BDS3,0,
-- and the check of an ACAS payload.
use hpr_readsb.Base.{ℕ, zero, suc, ◌+◌, ◌*◌, Bool, true, false, not, ◌&&◌, ◌||◌}
use hpr_readsb.Base.{List, [], ◌∷◌, ◌==◌, if◌then◌else◌, get_or}
use hpr_readsb.Base.Int.{ℤ, pos, sub_ℕ}
use hpr_readsb.IcaoFilter.{Filter, icao_filter_test}
use hpr_readsb.ModeS.Bits.{bit, getbits}
use hpr_readsb.ModeS.Message.{Message}
use hpr_readsb.ModeS.Payload.{ais_charset, valid_chars}

-- The loop of `decodeEmptyResponse`, over the last `n` bytes that are left.
unfoldable pub is_empty : List ℕ → ℕ → Bool
is_empty mb zero = true
is_empty mb (suc n) = get_or mb n 0 == 0 && is_empty mb n

-- The score of `decodeEmptyResponse`
unfoldable pub decode_empty_response : List ℕ → ℤ
decode_empty_response mb = if is_empty mb 7 then pos 56 else pos 0

-- The score of `decodeBDS10`
unfoldable pub decode_bds10 : List ℕ → ℤ
decode_bds10 mb =
    if not (get_or mb 0 0 == 0x10)
    then pos 0
    else if not (getbits mb 10 14 == 0)
    then pos 0
    else pos 56

abbrev pub points_if : Bool → ℕ → ℕ
points_if b n = if b then n else 0

-- What `decodeBDS17` adds.
unfoldable pub gains_17 : List ℕ → ℕ
gains_17 mb =
    let es_capable = bit mb 1 && bit mb 2 && bit mb 3 && bit mb 4 && bit mb 5 in
    let no_es = not (bit mb 1 || bit mb 2 || bit mb 3 || bit mb 4 || bit mb 5 || bit mb 6) in
    let track_heading = bit mb 16 && bit mb 24 in
    let neither = not (bit mb 16 || bit mb 24 || bit mb 9) in
    points_if (bit mb 7) 1
    + (if es_capable then 5 + points_if (bit mb 6) 1 else points_if no_es 1)
    + (if track_heading then 2 + points_if (bit mb 9) 1 else points_if neither 1)

-- What it takes away.
unfoldable pub losses_17 : List ℕ → ℕ
losses_17 mb =
    let es_capable = bit mb 1 && bit mb 2 && bit mb 3 && bit mb 4 && bit mb 5 in
    let no_es = not (bit mb 1 || bit mb 2 || bit mb 3 || bit mb 4 || bit mb 5 || bit mb 6) in
    let track_heading = bit mb 16 && bit mb 24 in
    let neither = not (bit mb 16 || bit mb 24 || bit mb 9) in
    points_if (not (bit mb 7)) 2
    + points_if (bit mb 10) 2
    + points_if (bit mb 11) 2
    + points_if (bit mb 12) 2
    + points_if (bit mb 13) 2
    + points_if (bit mb 14) 2
    + points_if (bit mb 20) 2
    + points_if (bit mb 21) 2
    + points_if (bit mb 22) 2
    + points_if (not (es_capable || no_es)) 12
    + points_if (not (track_heading || neither)) 6

-- The score of `decodeBDS17`
unfoldable pub decode_bds17 : List ℕ → ℤ
decode_bds17 mb = if not (getbits mb 25 56 == 0) then pos 0 else sub_ℕ (gains_17 mb) (losses_17 mb)

-- The callsign that `decodeBDS20` reads, without the 0 at its end.
unfoldable pub callsign_20 : List ℕ → List ℕ
callsign_20 mb =
    ais_charset (getbits mb 9 14)
    ∷ ais_charset (getbits mb 15 20)
    ∷ ais_charset (getbits mb 21 26)
    ∷ ais_charset (getbits mb 27 32)
    ∷ ais_charset (getbits mb 33 38)
    ∷ ais_charset (getbits mb 39 44)
    ∷ ais_charset (getbits mb 45 50)
    ∷ ais_charset (getbits mb 51 56)
    ∷ []

-- The score of `decodeBDS20`: 8 and 6 for each of the eight characters.
unfoldable pub decode_bds20 : List ℕ → ℤ
decode_bds20 mb =
    if not (get_or mb 0 0 == 0x20)
    then pos 0
    else if valid_chars (callsign_20 mb)
    then pos (8 + 6 * 8)
    else pos 0

-- `checkAcasRaValid`
pub check_acas_ra_valid : Filter → List ℕ → Message → Bool → Bool
check_acas_ra_valid filter msg m debug =
    let tti = getbits msg 29 30 in
    if not (bit msg 9) && not (bit msg 27) && not (bit msg 28)
    then false
    else if getbits msg 9 28 == 0
    then false
    else if bit msg 23 && bit msg 24
    then false
    else if bit msg 25 && bit msg 26
    then false
    else if m.msgtype == 16
    then getbits msg 29 56 == 0
    else if bit msg 25 || bit msg 26
    then false
    else if tti == 0
    then getbits msg 31 56 == 0
    else if tti == 1
    then if not (getbits msg 55 56 == 0)
      then false
      else if icao_filter_test filter (getbits msg 31 54)
      then true
      else debug
    else if tti == 2
    then if m.metype == 28 then true else debug
    else false

-- The score of `decodeBDS30`
unfoldable pub decode_bds30 : List ℕ → ℤ
decode_bds30 mb = if not (get_or mb 0 0 == 0x30) then pos 0 else pos 56
