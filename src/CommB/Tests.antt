-- ===== src/CommB/Tests.antt =====
-- Comm-B replies, with integers for the doubles.
use hpr_readsb.Base.{◌≡◌, ◌↔◌, refl, [], ◌∷◌}
use hpr_readsb.Base.Doubles.Integers.{integers}
use hpr_readsb.Base.Int.{pos, ◌≤ℤ◌}
use hpr_readsb.ModeS.Message.{Message}
use hpr_readsb.ModeS.Sample.{received}
use hpr_readsb.ModeS.Bits.{getbits, getbit}
use hpr_readsb.ModeS.Payload.{ais_charset, valid_chars, valid_char}
use hpr_readsb.CommB.Parts.{total, score_of, status_points, range_points}
use hpr_readsb.CommB.Capabilities.{decode_bds20, callsign_20}
use hpr_readsb.CommB.Intent.{
  decode_bds40, points_40, penalty_40, altitude_points, baro_points, baro_setting, is_odd_altitude,
}
use hpr_readsb.CommB.Turn.{}
use hpr_readsb.CommB.Heading.{}
use hpr_readsb.CommB.Weather.{}
use hpr_readsb.CommB.Choose.{empty_response, bds20, bds40, comm_b_score, comm_b_choice, chosen}
use hpr_readsb.CommB.Choice.{IsBest, comm_b_choice-IsBest}
use hpr_readsb.CommB.Bounds.{most_of, comm_b_score-most_of}
use hpr_readsb.CommB.Empty.{zeros, comm_b_choice-zeros}

-- The callsign KLM1017.
abbrev ident : Message
ident = record (received []) { mb = 0x20 ∷ 0x2c ∷ 0xc3 ∷ 0x71 ∷ 0xc3 ∷ 0x2c ∷ 0xe0 ∷ [] }

abbrev blank : Message
blank = record (received []) { mb = zeros }

-- A selected altitude of 24000 feet, with its mode and its source.
abbrev intent : Message
intent = record (received []) { mb = 0xae ∷ 0xe0 ∷ 0 ∷ 0 ∷ 0 ∷ 0 ∷ 0 ∷ [] }

ident_score : comm_b_score integers (pos 3) ident bds20 ≡ pos 56
unfolding comm_b_score decode_bds20 callsign_20 ais_charset valid_chars valid_char getbits
ident_score = refl

intent_score : comm_b_score integers (pos 3) intent bds40 ≡ pos 17
unfolding comm_b_score decode_bds40 points_40 penalty_40 altitude_points baro_points baro_setting
    is_odd_altitude getbits getbit total score_of status_points range_points
intent_score = refl

comm_b_choice-IsBest_example :
    IsBest (comm_b_score integers (pos 3) ident) (comm_b_choice integers (pos 3) ident)
comm_b_choice-IsBest_example = comm_b_choice-IsBest integers (pos 3) ident refl refl

comm_b_score-most_of_example : comm_b_score integers (pos 3) intent bds40 ≤ℤ pos (most_of bds40)
comm_b_score-most_of_example = comm_b_score-most_of integers (pos 3) intent bds40

comm_b_choice-zeros_example :
    (blank.mb ≡ zeros) ↔ (comm_b_choice integers (pos 3) blank ≡ chosen empty_response)
comm_b_choice-zeros_example = comm_b_choice-zeros integers (pos 3) blank refl refl refl
