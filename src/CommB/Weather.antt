-- ===== src/CommB/Weather.antt =====
-- comm_b.c: BDS4,4, the meteorological routine air report.
use hpr_readsb.Base.{ℕ, ◌+◌, not, ◌&&◌}
use hpr_readsb.Base.{Option, none, some, List, [], ◌∷◌, ◌==◌, leb, if◌then◌else◌}
use hpr_readsb.Base.Doubles.{Doubles}
use hpr_readsb.Base.Int.{ℤ, negsuc}
use hpr_readsb.ModeS.Bits.{bit, getbits}
use hpr_readsb.CommB.Parts.{Points, total, score_of, range_points}
use hpr_readsb.CommB.Intent.{of_ℕ}

module _ (d : Doubles) where
  -- `wind_direction`, a float; 180.0f / 256 is one float.
  unfoldable pub wind_direction : List ℕ → d.Double
  wind_direction mb =
      d.to_float
        (d.times (of_ℕ d (getbits mb 15 23)) (d.to_float (d.over (of_ℕ d 180) (of_ℕ d 256))))

  -- `temperature`, a float.
  unfoldable pub temperature : List ℕ → d.Double
  temperature mb =
      let raw = of_ℕ d (getbits mb 25 34) in
      let shifted = d.sub raw (d.pow (of_ℕ d 2) (of_ℕ d 10)) in
      d.to_float (d.times (if bit mb 24 then shifted else raw) (d.decimal 25 2))

  -- `humidity`, a float; 100.0f / 64 is one float.
  unfoldable pub humidity : List ℕ → d.Double
  humidity mb =
      d.to_float
        (d.times (of_ℕ d (getbits mb 51 56)) (d.to_float (d.over (of_ℕ d 100) (of_ℕ d 64))))

  -- The points of the wind, speed and direction.
  unfoldable pub wind_points : List ℕ → Points
  wind_points mb =
      let in_range =
        leb (getbits mb 6 14) 511
        && d.at_most (of_ℕ d 0) (wind_direction mb)
        && d.at_most (wind_direction mb) (of_ℕ d 360) in
      if bit mb 5
      then if in_range then some (9 + 9) else none
      else if getbits mb 6 14 == 0 && getbits mb 15 23 == 0
      then some 2
      else none

  -- The points of the temperature.
  unfoldable pub temperature_points : List ℕ → Points
  temperature_points mb =
      if d.at_most (d.of_int (negsuc 127)) (temperature mb)
        && d.at_most (temperature mb) (of_ℕ d 128)
      then some 10
      else none

  -- The points of BDS4,4.
  unfoldable pub points_44 : List ℕ → Points
  points_44 mb = total (
      (if leb (getbits mb 1 4) 6 then some 4 else none)
      ∷ wind_points mb
      ∷ temperature_points mb
      ∷ range_points (bit mb 35) (getbits mb 36 46 == 0) (leb (getbits mb 36 46) 2048) 11
      ∷ range_points (bit mb 47) (getbits mb 48 49 == 0) (leb (getbits mb 48 49) 3) 2
      ∷ range_points (bit mb 50) (getbits mb 51 56 == 0)
          (d.at_most (of_ℕ d 0) (humidity mb) && d.at_most (humidity mb) (of_ℕ d 100)) 6
      ∷ [])

  -- The score of `decodeBDS44`
  unfoldable pub decode_bds44 : List ℕ → ℤ
  decode_bds44 mb = score_of (points_44 mb) 0

  -- What `decodeBDS44` stores; a wind of speed 0 from direction 0 is left out.
  pub record Weather : Type 0 where
    pub met_source : ℕ
    pub wind : Option (ℕ × d.Double)
    pub oat : d.Double
    pub static_pressure : Option ℕ
    pub turbulence : Option ℕ
    pub relative_humidity : Option d.Double

  pub weather : List ℕ → Weather
  weather mb =
      let is_zero =
        d.at_most (wind_direction mb) (of_ℕ d 0) && d.at_most (of_ℕ d 0) (wind_direction mb) in
      record {
        met_source = getbits mb 1 4;
        wind =
            if bit mb 5 && not (getbits mb 6 14 == 0 && is_zero)
            then some (getbits mb 6 14, wind_direction mb)
            else none;
        oat = temperature mb;
        static_pressure = if bit mb 35 then some (getbits mb 36 46) else none;
        turbulence = if bit mb 47 then some (getbits mb 48 49) else none;
        relative_humidity = if bit mb 50 then some (humidity mb) else none;
      }
