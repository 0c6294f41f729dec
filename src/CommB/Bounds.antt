-- ===== src/CommB/Bounds.antt =====
-- comm_b.c: how high each decoder can score.
use hpr_readsb.Base.{ℕ, ◌+◌, ◌≤◌, arith}
use hpr_readsb.Base.{Bool, true, false, not, none, some, List, [], ◌∷◌}
use hpr_readsb.Base.{◌&&◌, ◌||◌, if◌then◌else◌, ◌==◌}
use hpr_readsb.Base.Doubles.{Doubles}
use hpr_readsb.Base.Int.{ℤ, pos, sub_ℕ, ◌≤ℤ◌}
use hpr_readsb.ModeS.Bits.{bit, getbits}
use hpr_readsb.ModeS.Message.{Message}
use hpr_readsb.CommB.Parts.{Points, total, score_of, status_points, range_points, AtMost}
use hpr_readsb.CommB.Capabilities.{
  decode_empty_response, decode_bds10, decode_bds17, gains_17, losses_17, decode_bds20,
  decode_bds30, points_if,
}
use hpr_readsb.CommB.Intent.{decode_bds40, points_40, penalty_40, altitude_points, baro_points}
use hpr_readsb.CommB.Turn.{decode_bds50, points_50, penalty_50, speed_points}
use hpr_readsb.CommB.Heading.{decode_bds60, points_60, penalty_60, rate_points}
use hpr_readsb.CommB.Weather.{decode_bds44, points_44, wind_points, temperature_points}
use hpr_readsb.CommB.Choose.{
  Decoder, empty_response, bds10, bds20, bds30, bds17, bds40, bds50, bds60, bds44, comm_b_score,
}

total-cons :
    (a n : ℕ) (p : Points) (fields : List Points)
    → AtMost a p
    → AtMost n (total fields)
    → AtMost (a + n) (total (p ∷ fields))
unfolding total
total-cons a n none fields h k = tt
total-cons a n (some m) fields h k = go (total fields) k
  where
    go : (o : Points) → AtMost n o → AtMost (a + n) (elim o [ none ↦ none | some j ↦ some (m + j) ])
    go none l = tt
    go (some j) l = omega (arith, h, l)

total-nil : AtMost 0 (total [])
unfolding total
total-nil = omega arith

if-AtMost :
    (b : Bool) (most : ℕ) (p q : Points)
    → AtMost most p
    → AtMost most q
    → AtMost most (if b then p else q)
if-AtMost true most p q h k = h
if-AtMost false most p q h k = k

-- A field that gives its points or returns.
test-AtMost : (b : Bool) (most : ℕ) → AtMost most (if b then some most else none)
test-AtMost true most = omega arith
test-AtMost false most = tt

status_points-AtMost :
    (valid nonzero in_range : Bool) (most : ℕ)
    → 1 ≤ most
    → AtMost most (status_points valid nonzero in_range most)
unfolding status_points
status_points-AtMost true true in_range most h = test-AtMost in_range most
status_points-AtMost true false in_range most h = tt
status_points-AtMost false true in_range most h = tt
status_points-AtMost false false in_range most h = h

range_points-AtMost :
    (valid clear in_range : Bool) (most : ℕ)
    → 1 ≤ most
    → AtMost most (range_points valid clear in_range most)
unfolding range_points
range_points-AtMost true clear in_range most h = test-AtMost in_range most
range_points-AtMost false true in_range most h = h
range_points-AtMost false false in_range most h = tt

sub_ℕ_le : (a b n : ℕ) → a ≤ n → sub_ℕ a b ≤ℤ pos n
sub_ℕ_le a b n h = ground arith

score_of_le : (n : ℕ) (p : Points) (penalty : ℕ) → AtMost n p → score_of p penalty ≤ℤ pos n
unfolding score_of
score_of_le n none penalty h = omega arith
score_of_le n (some m) penalty h = sub_ℕ_le m penalty n h

if_le : (b : Bool) (n : ℕ) (s t : ℤ) → s ≤ℤ pos n → t ≤ℤ pos n → (if b then s else t) ≤ℤ pos n
if_le true n s t h k = h
if_le false n s t h k = k

points_if_le : (b : Bool) (n : ℕ) → points_if b n ≤ n
points_if_le true n = omega arith
points_if_le false n = omega arith

if_ℕ_le : (b : Bool) (n x y : ℕ) → x ≤ n → y ≤ n → (if b then x else y) ≤ n
if_ℕ_le true n x y h k = h
if_ℕ_le false n x y h k = k

gains_17_le : (mb : List ℕ) → gains_17 mb ≤ 10
unfolding gains_17
gains_17_le mb =
    let one = points_if_le (bit mb 7) 1 in
    let six = points_if_le (bit mb 6) 1 in
    let nine = points_if_le (bit mb 9) 1 in
    let es =
      if_ℕ_le (bit mb 1 && bit mb 2 && bit mb 3 && bit mb 4 && bit mb 5) 6
        (5 + points_if (bit mb 6) 1)
        (points_if (not (bit mb 1 || bit mb 2 || bit mb 3 || bit mb 4 || bit mb 5 || bit mb 6)) 1)
        (omega (arith, six)) (omega (arith, points_if_le _ 1)) in
    let track =
      if_ℕ_le (bit mb 16 && bit mb 24) 3 (2 + points_if (bit mb 9) 1)
        (points_if (not (bit mb 16 || bit mb 24 || bit mb 9)) 1) (omega (arith, nine))
        (omega (arith, points_if_le _ 1)) in
    omega (arith, one, es, track)

module _ (d : Doubles) where
  points_40-AtMost : (mb : List ℕ) → AtMost 46 (points_40 d mb)
  unfolding points_40 altitude_points baro_points
  points_40-AtMost mb = if-AtMost _ 46 none _ tt (
      total-cons 13 33 _ _ (status_points-AtMost _ _ _ 13 (omega arith)) (
        total-cons 13 20 _ _ (status_points-AtMost _ _ _ 13 (omega arith)) (
          total-cons 13 7 _ _ (status_points-AtMost _ _ _ 13 (omega arith)) (
            total-cons 0 7 _ _ (test-AtMost _ 0) (
              total-cons 4 3 _ _ (range_points-AtMost _ _ _ 4 (omega arith)) (
                total-cons 0 3 _ _ (test-AtMost _ 0)
                  (total-cons 3 0 _ _ (range_points-AtMost _ _ _ 3 (omega arith)) total-nil)))))))

  wind_points-AtMost : (mb : List ℕ) → AtMost 18 (wind_points d mb)
  unfolding wind_points
  wind_points-AtMost mb =
      if-AtMost (bit mb 5) 18 _ _ (test-AtMost _ 18) (
        if-AtMost (getbits mb 6 14 == 0 && getbits mb 15 23 == 0) 18 (some 2) none (omega arith) tt)

  points_44-AtMost : (mb : List ℕ) → AtMost 51 (points_44 d mb)
  unfolding points_44 temperature_points
  points_44-AtMost mb = total-cons 4 47 _ _ (test-AtMost _ 4) (
      total-cons 18 29 _ _ (wind_points-AtMost mb) (
        total-cons 10 19 _ _ (test-AtMost _ 10) (
          total-cons 11 8 _ _ (range_points-AtMost _ _ _ 11 (omega arith)) (
            total-cons 2 6 _ _ (range_points-AtMost _ _ _ 2 (omega arith))
              (total-cons 6 0 _ _ (range_points-AtMost _ _ _ 6 (omega arith)) total-nil)))))

  points_60-AtMost : (mb : List ℕ) → AtMost 56 (points_60 d mb)
  unfolding points_60 rate_points
  points_60-AtMost mb = if-AtMost _ 56 none _ tt (
      total-cons 12 44 _ _ (range_points-AtMost _ _ _ 12 (omega arith)) (
        total-cons 11 33 _ _ (status_points-AtMost _ _ _ 11 (omega arith)) (
          total-cons 11 22 _ _ (status_points-AtMost _ _ _ 11 (omega arith)) (
            total-cons 11 11 _ _ (range_points-AtMost _ _ _ 11 (omega arith))
              (total-cons 11 0 _ _ (range_points-AtMost _ _ _ 11 (omega arith)) total-nil)))))

  points_50-AtMost : (pi : d.Double) (mb : List ℕ) → AtMost 56 (points_50 d pi mb)
  unfolding points_50 speed_points
  points_50-AtMost pi mb = if-AtMost _ 56 none _ tt (
      total-cons 11 45 _ _ (range_points-AtMost _ _ _ 11 (omega arith)) (
        total-cons 12 33 _ _ (range_points-AtMost _ _ _ 12 (omega arith)) (
          total-cons 11 22 _ _ (status_points-AtMost _ _ _ 11 (omega arith)) (
            total-cons 11 11 _ _ (range_points-AtMost _ _ _ 11 (omega arith))
              (total-cons 11 0 _ _ (status_points-AtMost _ _ _ 11 (omega arith)) total-nil)))))

-- The points that the fields of each register can bring.
abbrev pub most_of : Decoder → ℕ
most_of empty_response = 56
most_of bds10 = 56
most_of bds20 = 56
most_of bds30 = 56
most_of bds17 = 10
most_of bds40 = 46
most_of bds50 = 56
most_of bds60 = 56
most_of bds44 = 51

module _ (d : Doubles) (pi : d.Double) where
  -- Whatever the payload and the double arithmetic are, no decoder scores above the most its
  -- fields can bring: 10 for BDS1,7, 46 for BDS4,0, 51 for BDS4,4 and 56, which is the number of
  -- bits of the payload, for each of the others.
  pub comm_b_score-most_of : (m : Message) (x : Decoder) → comm_b_score d pi m x ≤ℤ pos (most_of x)
  unfolding comm_b_score decode_empty_response decode_bds10 decode_bds20 decode_bds30 decode_bds17
      decode_bds40 decode_bds50 decode_bds60 decode_bds44
  comm_b_score-most_of m empty_response = ground arith
  comm_b_score-most_of m bds10 = ground arith
  comm_b_score-most_of m bds20 = ground arith
  comm_b_score-most_of m bds30 = ground arith
  comm_b_score-most_of m bds17 =
      if_le (not (getbits m.mb 25 56 == 0)) 10 (pos 0) _ (omega arith)
        (sub_ℕ_le _ (losses_17 m.mb) 10 (gains_17_le m.mb))
  comm_b_score-most_of m bds40 = score_of_le 46 _ (penalty_40 d m.mb) (points_40-AtMost d m.mb)
  comm_b_score-most_of m bds50 =
      score_of_le 56 _ (penalty_50 d pi m.mb) (points_50-AtMost d pi m.mb)
  comm_b_score-most_of m bds60 = score_of_le 56 _ (penalty_60 d m) (points_60-AtMost d m.mb)
  comm_b_score-most_of m bds44 = score_of_le 51 _ 0 (points_44-AtMost d m.mb)
