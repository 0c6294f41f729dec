-- ===== src/CommB/Heading.antt =====
-- comm_b.c: BDS6,0, the heading and speed report.
use hpr_readsb.Base.{ℕ, ◌+◌, ◌*◌, Bool, true, false, not, ◌&&◌, ◌||◌}
use hpr_readsb.Base.{Option, none, some, List, [], ◌∷◌, ◌==◌, ltb, leb, if◌then◌else◌}
use hpr_readsb.Base.Doubles.{Doubles}
use hpr_readsb.Base.Int.{ℤ, pos, negsuc, sub_ℕ, ltb_ℤ, pos_part, neg_part}
use hpr_readsb.ModeS.Bits.{bit, getbits}
use hpr_readsb.ModeS.Fields.{AltitudeUnit, feet, meters}
use hpr_readsb.ModeS.Message.{Message}
use hpr_readsb.CommB.Parts.{Points, total, score_of, status_points, range_points}
use hpr_readsb.CommB.Capabilities.{points_if}
use hpr_readsb.CommB.Intent.{of_ℕ}
use hpr_readsb.CommB.Turn.{distance}

-- A vertical rate in feet per minute, from its sign bit and its field.
unfoldable pub vertical_rate : Bool → ℕ → ℤ
vertical_rate sign raw = if sign then sub_ℕ (raw * 32) 16384 else pos (raw * 32)

-- Its points. A rate that is not valid must be 0, whatever its sign bit is.
unfoldable pub rate_points : Bool → Bool → ℕ → Points
rate_points valid sign raw =
    let rate = vertical_rate sign raw in
    range_points valid (raw == 0) (not (ltb_ℤ rate (negsuc 5999)) && not (ltb_ℤ (pos 6000) rate)) 11

abbrev is_feet : AltitudeUnit → Bool
is_feet feet = true
is_feet meters = false

-- `abs(a - b)` of two rates.
unfoldable pub rate_distance : ℤ → ℤ → ℕ
rate_distance a b = distance (pos_part a + neg_part b) (pos_part b + neg_part a)

module _ (d : Doubles) where
  -- `mach`, a float.
  unfoldable pub mach : List ℕ → d.Double
  mach mb =
      d.to_float (d.over (d.times (of_ℕ d (getbits mb 25 34)) (d.decimal 2048 3)) (of_ℕ d 512))

  -- `heading`, a float.
  unfoldable pub heading_60 : List ℕ → d.Double
  heading_60 mb =
      let h = d.to_float (d.over (d.times (of_ℕ d (getbits mb 3 12)) (of_ℕ d 90)) (of_ℕ d 512)) in
      if bit mb 2 then d.to_float (d.add h (of_ℕ d 180)) else h

  -- The points of BDS6,0.
  unfoldable pub points_60 : List ℕ → Points
  points_60 mb =
      if not (bit mb 1)
        || not (bit mb 13)
        || not (bit mb 24)
        || (not (bit mb 35) && not (bit mb 46))
      then none
      else total (
          range_points (bit mb 1) (getbits mb 3 12 == 0 && not (bit mb 2)) true 12
          ∷ status_points (bit mb 13) (not (getbits mb 14 23 == 0))
              (leb 50 (getbits mb 14 23) && leb (getbits mb 14 23) 700) 11
          ∷ status_points (bit mb 24) (not (getbits mb 25 34 == 0))
              (d.at_most (d.decimal 1 1) (mach mb) && d.at_most (mach mb) (d.decimal 9 1)) 11
          ∷ rate_points (bit mb 35) (bit mb 36) (getbits mb 37 45)
          ∷ rate_points (bit mb 46) (bit mb 47) (getbits mb 48 56)
          ∷ [])

  -- The ratio of the pressure at the altitude to that at sea level.
  unfoldable pub pressure_ratio : d.Double → d.Double
  pressure_ratio h_m =
      if d.at_most h_m (of_ℕ d 11000)
      then d.pow (d.sub (of_ℕ d 1) (d.times (d.decimal 225577 10) h_m)) (d.decimal 525588 5)
      else d.times (d.decimal 22336 5) (
          d.exp (
            d.over (d.times (d.of_int (negsuc 0)) (d.sub h_m (of_ℕ d 11000))) (d.decimal 634162 2)))

  -- The airspeed by the Mach number and the altitude.
  unfoldable pub airspeed : List ℕ → ℤ → d.Double
  airspeed mb altitude =
      let h_m = d.times (d.of_int altitude) (d.decimal 3048 4) in
      let squared = d.times (d.times (d.decimal 2 1) (mach mb)) (mach mb) in
      let qc_p0 =
        d.times (pressure_ratio h_m)
          (d.sub (d.pow (d.add (of_ℕ d 1) squared) (d.decimal 35 1)) (of_ℕ d 1)) in
      let root = d.pow (d.add qc_p0 (of_ℕ d 1)) (d.over (of_ℕ d 2) (of_ℕ d 7)) in
      d.times (d.decimal 66147 2) (d.sqrt (d.times (of_ℕ d 5) (d.sub root (of_ℕ d 1))))

  -- Do airspeed, Mach number and altitude disagree?
  unfoldable pub is_odd_airspeed : Message → Bool
  is_odd_airspeed m =
      bit m.mb 13
      && bit m.mb 24
      && m.baro_alt_valid
      && is_feet m.baro_alt_unit
      && ltb_ℤ (negsuc 1499) m.baro_alt
      && ltb_ℤ m.baro_alt (pos 60000)
      && d.less (of_ℕ d 25)
          (d.fabs (d.sub (airspeed m.mb m.baro_alt) (of_ℕ d (getbits m.mb 14 23))))

  -- The penalties of BDS6,0.
  unfoldable pub penalty_60 : Message → ℕ
  penalty_60 m =
      let mb = m.mb in
      let baro = vertical_rate (bit mb 36) (getbits mb 37 45) in
      let inertial = vertical_rate (bit mb 47) (getbits mb 48 56) in
      points_if (is_odd_airspeed m) 12
      + points_if (bit mb 35 && bit mb 46 && ltb 2000 (rate_distance baro inertial)) 12

  -- The score of `decodeBDS60`
  unfoldable pub decode_bds60 : Message → ℤ
  decode_bds60 m = score_of (points_60 m.mb) (penalty_60 m)

  -- What `decodeBDS60` stores.
  pub record HeadingSpeed : Type 0 where
    pub heading : Option d.Double
    pub ias : Option ℕ
    pub mach_number : Option d.Double
    pub baro_rate : Option ℤ
    pub geom_rate : Option ℤ

  pub heading_speed : List ℕ → HeadingSpeed
  heading_speed mb = record {
    heading = if bit mb 1 then some (heading_60 mb) else none;
    ias = if bit mb 13 then some (getbits mb 14 23) else none;
    mach_number = if bit mb 24 then some (mach mb) else none;
    baro_rate = if bit mb 35 then some (vertical_rate (bit mb 36) (getbits mb 37 45)) else none;
    geom_rate = if bit mb 46 then some (vertical_rate (bit mb 47) (getbits mb 48 56)) else none;
  }
