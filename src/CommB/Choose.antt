-- ===== src/CommB/Choose.antt =====
-- comm_b.c: `decodeCommB`, which tries the decoders in turn and runs the best again to store.
use hpr_readsb.Base.{ℕ, Bool, true, false, not, ◌||◌}
use hpr_readsb.Base.{Option, none, some, List, [], ◌∷◌, ◌==◌, ltb, if◌then◌else◌}
use hpr_readsb.Base.Doubles.{Doubles}
use hpr_readsb.Base.Int.{ℤ, pos, ltb_ℤ}
use hpr_readsb.ModeS.Message.{Message}
use hpr_readsb.CommB.Capabilities.{decode_empty_response, decode_bds10, decode_bds17, decode_bds20}
use hpr_readsb.CommB.Capabilities.{decode_bds30, callsign_20}
use hpr_readsb.CommB.Intent.{decode_bds40, VerticalIntent, vertical_intent}
use hpr_readsb.CommB.Turn.{decode_bds50, TrackTurn, track_turn}
use hpr_readsb.CommB.Heading.{decode_bds60, HeadingSpeed, heading_speed}
use hpr_readsb.CommB.Weather.{decode_bds44, Weather, weather}

-- The decoders, in the order of `comm_b_decoders`.
pub data Decoder : Type 0 where
  empty_response bds10 bds20 bds30 bds17 bds40 bds50 bds60 bds44 : Decoder

abbrev pub comm_b_decoders : List Decoder
comm_b_decoders =
    empty_response ∷ bds10 ∷ bds20 ∷ bds30 ∷ bds17 ∷ bds40 ∷ bds50 ∷ bds60 ∷ bds44 ∷ []

-- `bestScore`, `bestDecoder` and `ambiguous`
pub record Best : Type 0 where
  pub score : ℤ
  pub decoder : Option Decoder
  pub ambiguous : Bool

-- One pass of the loop, for the score of a decoder.
unfoldable pub consider : Decoder → ℤ → Best → Best
consider decoder score best =
    if ltb_ℤ best.score score
    then record { score = score; decoder = some decoder; ambiguous = false }
    else if not (ltb_ℤ score best.score)
    then record best { ambiguous = true }
    else best

-- The loop.
unfoldable pub best_of : (Decoder → ℤ) → List Decoder → Best → Best
best_of score [] best = best
best_of score (decoder ∷ decoders) best =
    best_of score decoders (consider decoder (score decoder) best)

abbrev pub no_best : Best
no_best = record { score = pos 0; decoder = none; ambiguous = false }

-- How the choice ends: `COMMB_UNKNOWN`, `COMMB_AMBIGUOUS`, or a decoder that stores.
pub data Choice : Type 0 where
  unknown ambiguous : Choice
  chosen : Decoder → Choice

-- What follows the loop.
unfoldable pub choose : Best → Choice
choose best = elim best.decoder [
  | none ↦ unknown
  | some decoder ↦ if best.ambiguous then ambiguous else chosen decoder
]

module _ (d : Doubles) (pi : d.Double) where
  -- The score of each decoder.
  unfoldable pub comm_b_score : Message → Decoder → ℤ
  comm_b_score m empty_response = decode_empty_response m.mb
  comm_b_score m bds10 = decode_bds10 m.mb
  comm_b_score m bds20 = decode_bds20 m.mb
  comm_b_score m bds30 = decode_bds30 m.mb
  comm_b_score m bds17 = decode_bds17 m.mb
  comm_b_score m bds40 = decode_bds40 d m.mb
  comm_b_score m bds50 = decode_bds50 d pi m.mb
  comm_b_score m bds60 = decode_bds60 d m
  comm_b_score m bds44 = decode_bds44 d m.mb

  -- `decodeCommB` up to its last call: what it chooses.
  unfoldable pub comm_b_choice : Message → Choice
  comm_b_choice m =
      if not (m.dr == 0) || ltb 0 m.correctedbits
      then unknown
      else choose (best_of (comm_b_score m) comm_b_decoders no_best)

  -- What `decodeCommB` stores, with the `commb_format`.
  pub data Report : Type 0 where
    commb_unknown commb_ambiguous commb_empty_response commb_datalink_caps : Report
    commb_gicb_caps commb_acas_ra : Report
    commb_aircraft_ident : List ℕ → Report
    commb_vertical_intent : VerticalIntent d → Report
    commb_track_turn : TrackTurn d pi → Report
    commb_heading_speed : HeadingSpeed d → Report
    commb_meteorological_routine : Weather d → Report

  -- What a decoder stores.
  pub report_of : Message → Decoder → Report
  report_of m empty_response = commb_empty_response
  report_of m bds10 = commb_datalink_caps
  report_of m bds20 = commb_aircraft_ident (callsign_20 m.mb)
  report_of m bds30 = commb_acas_ra
  report_of m bds17 = commb_gicb_caps
  report_of m bds40 = commb_vertical_intent (vertical_intent d m.mb)
  report_of m bds50 = commb_track_turn (track_turn d pi m.mb)
  report_of m bds60 = commb_heading_speed (heading_speed d m.mb)
  report_of m bds44 = commb_meteorological_routine (weather d m.mb)

  -- `decodeCommB`
  pub decode_comm_b : Message → Report
  decode_comm_b m = elim (comm_b_choice m) [
    | unknown ↦ commb_unknown
    | ambiguous ↦ commb_ambiguous
    | chosen decoder ↦ report_of m decoder
  ]
