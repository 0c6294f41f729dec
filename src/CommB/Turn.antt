-- ===== src/CommB/Turn.antt =====
-- comm_b.c: BDS5,0, the track and turn report.
use hpr_readsb.Base.{ℕ, ◌+◌, ◌-◌, ◌*◌, Bool, true, not, ◌&&◌, ◌||◌}
use hpr_readsb.Base.{Option, none, some, List, [], ◌∷◌, ◌==◌, ltb, leb, if◌then◌else◌}
use hpr_readsb.Base.Doubles.{Doubles}
use hpr_readsb.Base.Int.{ℤ, negsuc}
use hpr_readsb.ModeS.Bits.{bit, getbits}
use hpr_readsb.CommB.Parts.{Points, total, score_of, status_points, range_points}
use hpr_readsb.CommB.Capabilities.{points_if}
use hpr_readsb.CommB.Intent.{of_ℕ}

-- The points of a speed in steps of 2 knots.
unfoldable pub speed_points : Bool → ℕ → Points
speed_points valid raw =
    status_points valid (not (raw == 0)) (leb 50 (raw * 2) && leb (raw * 2) 700) 11

-- `abs(a - b)`
abbrev pub distance : ℕ → ℕ → ℕ
distance a b = a - b + (b - a)

module _ (d : Doubles) (pi : d.Double) where
  -- `roll`, a float.
  unfoldable pub roll : List ℕ → d.Double
  roll mb =
      let r = d.to_float (d.over (d.times (of_ℕ d (getbits mb 3 11)) (of_ℕ d 45)) (of_ℕ d 256)) in
      if bit mb 2 then d.to_float (d.sub r (of_ℕ d 90)) else r

  -- `track`, a float.
  unfoldable pub track_50 : List ℕ → d.Double
  track_50 mb =
      let t = d.to_float (d.over (d.times (of_ℕ d (getbits mb 14 23)) (of_ℕ d 90)) (of_ℕ d 512)) in
      if bit mb 13 then d.to_float (d.add t (of_ℕ d 180)) else t

  -- `track_rate`, a float.
  unfoldable pub track_rate : List ℕ → d.Double
  track_rate mb =
      let r = d.to_float (d.over (d.times (of_ℕ d (getbits mb 37 45)) (of_ℕ d 8)) (of_ℕ d 256)) in
      if bit mb 36 then d.to_float (d.sub r (of_ℕ d 16)) else r

  -- The points of BDS5,0.
  unfoldable pub points_50 : List ℕ → Points
  points_50 mb =
      if not (bit mb 1) || not (bit mb 12) || not (bit mb 24) || not (bit mb 46)
      then none
      else total (
          range_points (bit mb 1) (getbits mb 3 11 == 0 && not (bit mb 2))
            (d.at_most (d.of_int (negsuc 39)) (roll mb) && d.less (roll mb) (of_ℕ d 40)) 11
          ∷ range_points (bit mb 12) (getbits mb 14 23 == 0 && not (bit mb 13)) true 12
          ∷ speed_points (bit mb 24) (getbits mb 25 34)
          ∷ range_points (bit mb 35) (getbits mb 37 45 == 0 && not (bit mb 36))
              (d.at_most (d.of_int (negsuc 9)) (track_rate mb)
                && d.at_most (track_rate mb) (of_ℕ d 10))
              11
          ∷ speed_points (bit mb 46) (getbits mb 47 56)
          ∷ [])

  -- Does the rate of turn by the bank angle differ from the reported one?
  unfoldable pub is_odd_turn : List ℕ → Bool
  is_odd_turn mb =
      let tas = getbits mb 47 56 * 2 in
      let bank = d.tan (d.over (d.times (roll mb) pi) (of_ℕ d 180)) in
      let turn_rate = d.over (d.times (of_ℕ d 68625) bank) (d.times (of_ℕ d (tas * 20)) pi) in
      bit mb 1
      && bit mb 46
      && ltb 0 tas
      && bit mb 35
      && d.less (of_ℕ d 2) (d.fabs (d.sub turn_rate (track_rate mb)))

  -- The penalties of BDS5,0.
  unfoldable pub penalty_50 : List ℕ → ℕ
  penalty_50 mb =
      let delta = distance (getbits mb 25 34 * 2) (getbits mb 47 56 * 2) in
      points_if (bit mb 24 && bit mb 46 && ltb 150 delta) 6 + points_if (is_odd_turn mb) 6

  -- The score of `decodeBDS50`
  unfoldable pub decode_bds50 : List ℕ → ℤ
  decode_bds50 mb = score_of (points_50 mb) (penalty_50 mb)

  -- What `decodeBDS50` stores.
  pub record TrackTurn : Type 0 where
    pub roll_angle : Option d.Double
    pub heading : Option d.Double
    pub gs : Option ℕ
    pub rate : Option d.Double
    pub tas : Option ℕ

  pub track_turn : List ℕ → TrackTurn
  track_turn mb = record {
    roll_angle = if bit mb 1 then some (roll mb) else none;
    heading = if bit mb 12 then some (track_50 mb) else none;
    gs = if bit mb 24 then some (getbits mb 25 34 * 2) else none;
    rate = if bit mb 35 then some (track_rate mb) else none;
    tas = if bit mb 46 then some (getbits mb 47 56 * 2) else none;
  }
