-- ===== src/CommB/Intent.antt =====
-- comm_b.c: BDS4,0, the selected vertical intention.
use hpr_readsb.Base.{ℕ, ◌+◌, ◌*◌, ◌%◌, Bool, true, not, ◌&&◌, ◌||◌, bit_and, bit_or}
use hpr_readsb.Base.{Option, none, some, List, [], ◌∷◌, ◌==◌, ltb, leb, if◌then◌else◌}
use hpr_readsb.Base.Doubles.{Doubles}
use hpr_readsb.Base.Int.{ℤ, pos}
use hpr_readsb.ModeS.Bits.{bit, getbits}
use hpr_readsb.CommB.Parts.{Points, total, score_of, status_points, range_points}
use hpr_readsb.CommB.Capabilities.{points_if}

-- `nav_altitude_source_t`
pub data NavAltitudeSource : Type 0 where
  nav_alt_invalid nav_alt_unknown nav_alt_aircraft nav_alt_mcp nav_alt_fms : NavAltitudeSource

-- The points of an altitude in steps of 16 feet.
unfoldable pub altitude_points : Bool → ℕ → Points
altitude_points valid raw =
    status_points valid (not (raw == 0)) (leb 1000 (raw * 16) && leb (raw * 16) 50000) 13

-- Is the altitude far from a multiple of 500 feet?
unfoldable pub is_odd_altitude : ℕ → Bool
is_odd_altitude alt = not (ltb (alt % 500) 16 || ltb 484 (alt % 500))

-- `altitude_source` of the navigation data.
unfoldable pub nav_altitude_source : Bool → ℕ → NavAltitudeSource
nav_altitude_source valid raw =
    if not valid
    then nav_alt_invalid
    else if raw == 0
    then nav_alt_unknown
    else if raw == 1
    then nav_alt_aircraft
    else if raw == 2
    then nav_alt_mcp
    else if raw == 3
    then nav_alt_fms
    else nav_alt_invalid

module _ (d : Doubles) where
  abbrev pub of_ℕ : ℕ → d.Double
  of_ℕ n = d.of_int (pos n)

  -- `baro_setting`, a float.
  unfoldable pub baro_setting : ℕ → d.Double
  baro_setting raw = d.to_float (d.add (of_ℕ 800) (d.times (of_ℕ raw) (d.decimal 1 1)))

  -- The points of the pressure setting.
  unfoldable pub baro_points : Bool → ℕ → Points
  baro_points valid raw =
      status_points valid (not (raw == 0))
        (d.at_most (of_ℕ 900) (baro_setting raw) && d.at_most (baro_setting raw) (of_ℕ 1100)) 13

  -- The points of BDS4,0.
  unfoldable pub points_40 : List ℕ → Points
  points_40 mb =
      let mcp = bit mb 1 in
      let fms = bit mb 14 in
      let baro = bit mb 27 in
      let mode = bit mb 48 in
      let source = bit mb 54 in
      if not mcp && not fms && not baro && not mode && not source
      then none
      else total (
          altitude_points mcp (getbits mb 2 13)
          ∷ altitude_points fms (getbits mb 15 26)
          ∷ baro_points baro (getbits mb 28 39)
          ∷ (if getbits mb 40 47 == 0 then some 0 else none)
          ∷ range_points mode (getbits mb 49 51 == 0) true 4
          ∷ (if getbits mb 52 53 == 0 then some 0 else none)
          ∷ range_points source (getbits mb 55 56 == 0) true 3
          ∷ [])

  -- The penalties of BDS4,0.
  unfoldable pub penalty_40 : List ℕ → ℕ
  penalty_40 mb =
      let mcp_alt = getbits mb 2 13 * 16 in
      let fms_alt = getbits mb 15 26 * 16 in
      points_if (bit mb 1 && bit mb 14 && not (mcp_alt == fms_alt)) 4
      + points_if (bit mb 1 && is_odd_altitude mcp_alt) 4
      + points_if (bit mb 14 && is_odd_altitude fms_alt) 4

  -- The score of `decodeBDS40`
  unfoldable pub decode_bds40 : List ℕ → ℤ
  decode_bds40 mb = score_of (points_40 mb) (penalty_40 mb)

  -- What `decodeBDS40` stores; `none` is a field that it leaves.
  pub record VerticalIntent : Type 0 where
    pub mcp_altitude : Option ℕ
    pub fms_altitude : Option ℕ
    pub qnh : Option d.Double
    pub modes : Option ℕ
    pub altitude_source : NavAltitudeSource

  pub vertical_intent : List ℕ → VerticalIntent
  vertical_intent mb =
      let mode_raw = getbits mb 49 51 in
      let vnav = if bit_and mode_raw 4 == 0 then 0 else 2 in
      let alt_hold = if bit_and mode_raw 2 == 0 then 0 else 4 in
      let approach = if bit_and mode_raw 1 == 0 then 0 else 8 in
      record {
        mcp_altitude = if bit mb 1 then some (getbits mb 2 13 * 16) else none;
        fms_altitude = if bit mb 14 then some (getbits mb 15 26 * 16) else none;
        qnh = if bit mb 27 then some (baro_setting (getbits mb 28 39)) else none;
        modes = if bit mb 48 then some (bit_or (bit_or vnav alt_hold) approach) else none;
        altitude_source = nav_altitude_source (bit mb 54) (getbits mb 55 56);
      }
