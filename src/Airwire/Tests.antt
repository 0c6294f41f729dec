-- ===== src/Airwire/Tests.antt =====
-- A position frame, with integers for the doubles, and an identity frame.
use hpr_readsb.Base.Doubles.Integers.{integers}
use native.Mathlib.Omega.{arith}
use hpr_readsb.Airwire.{Identity, put_callsign, hpr_airwire_encode_identity}
use hpr_readsb.Airwire.Identities.{IsIdentityFrame, hpr_airwire_encode_identity-IsIdentityFrame}
use hpr_readsb.Base.{ℕ, refl, ◌≡◌, List, [], ◌∷◌, some}
use hpr_readsb.Base.Int.{pos, negsuc}
use hpr_readsb.Airwire.{Position, hpr_airwire_encode_position, valid_icao, valid_coordinates}
use hpr_readsb.Airwire.{track, ground_speed, scaled, clamp_i16, clamp_u16, put_u16le, put_i16le}
use hpr_readsb.Airwire.{put_i32le, put_u24le, cast}
use hpr_readsb.Airwire.Frames.{IsPositionFrame, hpr_airwire_encode_position-IsPositionFrame}

abbrev position : Position integers
position = record {
  icao = 0xabcdef;
  lon_deg = pos 106;
  lat_deg = pos 20;
  altitude_ft = pos 35000;
  track_deg = pos 90;
  ground_speed_kt = pos 123;
  vertical_rate_fpm = negsuc 639;
}

abbrev frame : List ℕ
frame =
    0x02 ∷ 0xef ∷ 0xcd ∷ 0xab ∷ 0x80 ∷ 0x75 ∷ 0xca ∷ 0x03 ∷ 0x00 ∷ 0x1b ∷ 0xb7 ∷ 0x00 ∷ 0x78 ∷ 0x05
    ∷ 0x84 ∷ 0x03 ∷ 0xce ∷ 0x04 ∷ 0x80 ∷ 0xfd ∷ []

encoded : hpr_airwire_encode_position integers position ≡ some frame
unfolding hpr_airwire_encode_position valid_icao valid_coordinates track ground_speed scaled
    clamp_i16 clamp_u16 put_u16le put_i16le put_i32le put_u24le cast
encoded = refl

hpr_airwire_encode_position-IsPositionFrame_example : IsPositionFrame integers position frame
hpr_airwire_encode_position-IsPositionFrame_example =
    hpr_airwire_encode_position-IsPositionFrame integers position frame encoded

abbrev identity : Identity
identity = record {
  icao = 0xabcdef;
  callsign = 0x48 ∷ 0x56 ∷ 0x4e ∷ 0x01 ∷ 0 ∷ [];
  category = 0xa3;
  squawk = 0x1234;
}

abbrev identity_bytes : List ℕ
identity_bytes =
    0x06 ∷ 0xef ∷ 0xcd ∷ 0xab ∷ 0x48 ∷ 0x56 ∷ 0x4e ∷ 0x3f ∷ 0 ∷ 0 ∷ 0 ∷ 0 ∷ 0xa3 ∷ 0x34 ∷ 0x12 ∷ []

identity_encoded : hpr_airwire_encode_identity identity ≡ some identity_bytes
unfolding hpr_airwire_encode_identity valid_icao put_callsign put_u16le put_u24le
identity_encoded = refl

hpr_airwire_encode_identity-IsIdentityFrame_example : IsIdentityFrame identity identity_bytes
hpr_airwire_encode_identity-IsIdentityFrame_example =
    hpr_airwire_encode_identity-IsIdentityFrame identity identity_bytes (omega arith)
      identity_encoded
