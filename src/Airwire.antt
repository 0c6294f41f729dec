-- ===== src/Airwire.antt =====
-- hpr/airwire/hpr_airwire_bin.c: the binary frames of a position and of an identity. The double
-- arithmetic of the machine and of the C library is a parameter.
pub mod Frames
pub mod Identities
mod Tests
use hpr_readsb.Base.Doubles.{Doubles}
use hpr_readsb.Base.{ℕ, zero, suc, ◌+◌, ◌-◌, ◌*◌, ◌/◌, ◌%◌, ◌^◌}
use hpr_readsb.Base.{Bool, true, false, not, ◌&&◌, ◌||◌, Option, none, some, List, [], ◌∷◌, ◌++◌}
use hpr_readsb.Base.{◌==◌, ltb, leb, if◌then◌else◌, get_or}
use hpr_readsb.Base.Int.{ℤ, pos, negsuc, ltb_ℤ}

-- A conversion to an unsigned type of `m` values.
unfoldable pub cast : ℕ → ℤ → ℕ
cast m (pos n) = n % m
cast m (negsuc n) = m - 1 - n % m

-- `put_u16le`
unfoldable pub put_u16le : ℕ → List ℕ
put_u16le v = v % 2 ^ 8 ∷ v / 2 ^ 8 % 2 ^ 8 ∷ []

-- `put_i16le`
unfoldable pub put_i16le : ℤ → List ℕ
put_i16le v = put_u16le (cast (2 ^ 16) v)

-- `put_i32le`
unfoldable pub put_i32le : ℤ → List ℕ
put_i32le v =
    let u = cast (2 ^ 32) v in
    u % 2 ^ 8 ∷ u / 2 ^ 8 % 2 ^ 8 ∷ u / 2 ^ 16 % 2 ^ 8 ∷ u / 2 ^ 24 % 2 ^ 8 ∷ []

-- `put_u24le`
unfoldable pub put_u24le : ℕ → List ℕ
put_u24le v = v % 2 ^ 8 ∷ v / 2 ^ 8 % 2 ^ 8 ∷ v / 2 ^ 16 % 2 ^ 8 ∷ []

-- `clamp_i16`
unfoldable pub clamp_i16 : ℤ → ℤ
clamp_i16 v =
    if ltb_ℤ v (negsuc 32767) then negsuc 32767 else if ltb_ℤ (pos 32767) v then pos 32767 else v

-- `clamp_u16`
unfoldable pub clamp_u16 : ℤ → ℕ
clamp_u16 (negsuc n) = 0
clamp_u16 (pos n) = if ltb 65535 n then 65535 else n

-- `valid_icao`
unfoldable pub valid_icao : ℕ → Bool
valid_icao icao = ltb 0 icao && leb icao 0xffffff

-- `hpr_airwire_identity_t`; the callsign as the characters of the array.
pub record Identity : Type 0 where
  pub icao : ℕ
  pub callsign : List ℕ
  pub category : ℕ
  pub squawk : ℕ

-- The loop over the callsign, with `left` passes left; behind the end the frame stays 0.
unfoldable pub put_callsign : ℕ → List ℕ → List ℕ
put_callsign zero callsign = []
put_callsign (suc left) [] = 0 ∷ put_callsign left []
put_callsign (suc left) (ch ∷ callsign) = elim (ch == 0) [
  | true ↦ 0 ∷ put_callsign left []
  | false ↦ (if leb 0x20 ch && leb ch 0x7e then ch else 0x3f) ∷ put_callsign left callsign
]

-- `hpr_airwire_encode_identity`, for pointers that are not null.
unfoldable pub hpr_airwire_encode_identity : Identity → Option (List ℕ)
hpr_airwire_encode_identity identity =
    if valid_icao identity.icao
    then some (
        0x06 ∷ put_u24le identity.icao
        ++ (put_callsign 8 identity.callsign ++ (identity.category ∷ put_u16le identity.squawk)))
    else none

module _ (d : Doubles) where
  -- `hpr_airwire_position_t`
  pub record Position : Type 0 where
    pub icao : ℕ
    pub lon_deg : d.Double
    pub lat_deg : d.Double
    pub altitude_ft : ℤ
    pub track_deg : d.Double
    pub ground_speed_kt : d.Double
    pub vertical_rate_fpm : ℤ

  -- The tests of the coordinates.
  unfoldable pub valid_coordinates : Position → Bool
  valid_coordinates p =
      d.isfinite p.lon_deg
      && d.isfinite p.lat_deg
      && not (
          d.less p.lon_deg (d.of_int (negsuc 179))
          || d.less (d.of_int (pos 180)) p.lon_deg
          || d.less p.lat_deg (d.of_int (negsuc 89))
          || d.less (d.of_int (pos 90)) p.lat_deg)

  -- The track, at least 0.
  unfoldable pub track : Position → d.Double
  track p =
      let turn = d.of_int (pos 360) in
      let t = if d.isfinite p.track_deg then d.fmod p.track_deg turn else d.of_int (pos 0) in
      if d.less t (d.of_int (pos 0)) then d.add t turn else t

  -- The ground speed, at least 0.
  unfoldable pub ground_speed : Position → d.Double
  ground_speed p =
      if d.isfinite p.ground_speed_kt && d.less (d.of_int (pos 0)) p.ground_speed_kt
      then p.ground_speed_kt
      else d.of_int (pos 0)

  -- The scaled and rounded value of a field.
  unfoldable pub scaled : d.Double → ℕ → ℤ
  scaled x by = d.llround (d.times x (d.of_int (pos by)))

  -- `hpr_airwire_encode_position`, for pointers that are not null.
  unfoldable pub hpr_airwire_encode_position : Position → Option (List ℕ)
  hpr_airwire_encode_position p =
      let altitude = d.llround (d.over (d.of_int p.altitude_ft) (d.of_int (pos 25))) in
      if valid_icao p.icao && valid_coordinates p
      then some (
          0x02 ∷ put_u24le p.icao
          ++ (put_i32le (scaled p.lon_deg 600000)
              ++ (put_i32le (scaled p.lat_deg 600000)
                  ++ (put_i16le (clamp_i16 altitude)
                      ++ (put_u16le (clamp_u16 (scaled (track p) 10))
                          ++ (put_u16le (clamp_u16 (scaled (ground_speed p) 10))
                              ++ put_i16le (clamp_i16 p.vertical_rate_fpm)))))))
      else none
