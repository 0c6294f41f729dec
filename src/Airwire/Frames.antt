-- ===== src/Airwire/Frames.antt =====
-- Reading the frames back, by the offsets of hpr/airwire/AIRWIRE-BINARY-V1.md.
use hpr_readsb.Base.Doubles.{Doubles}
use hpr_readsb.Base.{subst}
use hpr_readsb.Base.{ℕ, ◌+◌, ◌-◌, ◌*◌, ◌/◌, ◌%◌, ◌^◌, ◌<◌, arith, refl, ◌≡◌, ap, ◌∙◌}
use hpr_readsb.Base.{Bool, true, ◌&&◌, some, some-injective, List, Bool-cases}
use hpr_readsb.Base.{ltb, if◌then◌else◌, get_or, length, inl, inr}
use hpr_readsb.Base.Int.{ℤ, pos, negsuc}
use hpr_readsb.Airwire.{put_u16le, put_i16le, put_i32le, put_u24le, cast, clamp_i16, clamp_u16}
use hpr_readsb.Airwire.{valid_icao}
use hpr_readsb.Airwire.{Position, valid_coordinates, scaled, track, ground_speed}
use hpr_readsb.Airwire.{hpr_airwire_encode_position}

abbrev pub byte : List ℕ → ℕ → ℕ
byte frame i = get_or frame i 0

-- Little-endian fields at an offset.
abbrev pub read_u16 : List ℕ → ℕ → ℕ
read_u16 frame i = byte frame i + 2 ^ 8 * byte frame (i + 1)

abbrev pub read_u24 : List ℕ → ℕ → ℕ
read_u24 frame i = byte frame i + 2 ^ 8 * byte frame (i + 1) + 2 ^ 16 * byte frame (i + 2)

abbrev pub read_u32 : List ℕ → ℕ → ℕ
read_u32 frame i =
    byte frame i
    + 2 ^ 8 * byte frame (i + 1)
    + 2 ^ 16 * byte frame (i + 2)
    + 2 ^ 24 * byte frame (i + 3)

-- A number in two's complement, of `2 * half` values.
abbrev pub signed : ℕ → ℕ → ℤ
signed half u = if ltb u half then pos u else negsuc (2 * half - 1 - u)

pub u16_bytes : (v : ℕ) → v < 65536 → v % 2 ^ 8 + 2 ^ 8 * (v / 2 ^ 8 % 2 ^ 8) ≡ v
u16_bytes v h = omega arith

pub u24_bytes :
    (v : ℕ)
    → v < 16777216
    → v % 2 ^ 8 + 2 ^ 8 * (v / 2 ^ 8 % 2 ^ 8) + 2 ^ 16 * (v / 2 ^ 16 % 2 ^ 8) ≡ v
u24_bytes v h = omega arith

u32_bytes :
    (v : ℕ)
    → v < 4294967296
    → v % 2 ^ 8
        + 2 ^ 8 * (v / 2 ^ 8 % 2 ^ 8)
        + 2 ^ 16 * (v / 2 ^ 16 % 2 ^ 8)
        + 2 ^ 24 * (v / 2 ^ 24 % 2 ^ 8)
      ≡ v
u32_bytes v h = omega arith

clamp_u16-lt : (v : ℤ) → clamp_u16 v < 65536
unfolding clamp_u16
clamp_u16-lt (pos n) = ground arith
clamp_u16-lt (negsuc n) = omega arith

cast-lt : (v : ℤ) → cast (2 ^ 32) v < 4294967296
unfolding cast
cast-lt (pos n) = omega arith
cast-lt (negsuc n) = omega arith

cast_16-lt : (v : ℤ) → cast (2 ^ 16) v < 65536
unfolding cast
cast_16-lt (pos n) = omega arith
cast_16-lt (negsuc n) = omega arith

-- What was clamped is read back as it was.
signed-clamp_i16 : (v : ℤ) → signed 32768 (cast (2 ^ 16) (clamp_i16 v)) ≡ clamp_i16 v
unfolding cast clamp_i16
signed-clamp_i16 (pos n) = ground arith
signed-clamp_i16 (negsuc n) = ground arith

pub valid_icao-lt : (icao : ℕ) → valid_icao icao ≡ true → icao < 16777216
unfolding valid_icao
valid_icao-lt icao h = ground arith

first : (a b : Bool) → (a && b) ≡ true → a ≡ true
first a b h = ground arith

module _ (d : Doubles) where
  -- The frame of a position, field by field.
  pub record IsPositionFrame (p : Position d) (frame : List ℕ) : Type 0 where
    pub size : length frame ≡ 20
    pub type : byte frame 0 ≡ 0x02
    pub icao : read_u24 frame 1 ≡ p.icao
    pub lon : read_u32 frame 4 ≡ cast (2 ^ 32) (scaled d p.lon_deg 600000)
    pub lat : read_u32 frame 8 ≡ cast (2 ^ 32) (scaled d p.lat_deg 600000)
    pub altitude :
        signed 32768 (read_u16 frame 12)
        ≡ clamp_i16 (d.llround (d.over (d.of_int p.altitude_ft) (d.of_int (pos 25))))
    pub track_field : read_u16 frame 14 ≡ clamp_u16 (scaled d (track d p) 10)
    pub speed : read_u16 frame 16 ≡ clamp_u16 (scaled d (ground_speed d p) 10)
    pub vertical_rate : signed 32768 (read_u16 frame 18) ≡ clamp_i16 p.vertical_rate_fpm

  -- If hpr_airwire_encode_position accepts a position, its frame has 20 bytes and type 0x02, and
  -- reading it at the offsets of AIRWIRE-BINARY-V1.md gives the address, the scaled longitude and
  -- latitude modulo 2 ^ 32, the scaled altitude and the vertical rate clamped to 16 signed bits,
  -- and the scaled track and ground speed clamped to 16 unsigned bits, whatever the double
  -- arithmetic is.
  pub hpr_airwire_encode_position-IsPositionFrame :
      (p : Position d) (frame : List ℕ)
      → hpr_airwire_encode_position d p ≡ some frame
      → IsPositionFrame p frame
  unfolding hpr_airwire_encode_position put_u16le put_i16le put_i32le put_u24le
  hpr_airwire_encode_position-IsPositionFrame p frame h =
      let altitude = clamp_i16 (d.llround (d.over (d.of_int p.altitude_ft) (d.of_int (pos 25)))) in
      let rate = clamp_i16 p.vertical_rate_fpm in
      elim (Bool-cases (valid_icao p.icao && valid_coordinates d p)) [
        | inr bad ↦ absurd (cc (rw (bad, hpr_airwire_encode_position) at h))
        | inl good ↦
            let q = some-injective _ _ (rw (good, hpr_airwire_encode_position) at h) in
            subst (IsPositionFrame p) q (record {
              size = refl;
              type = refl;
              icao =
                  u24_bytes p.icao
                    (valid_icao-lt p.icao (first (valid_icao p.icao) (valid_coordinates d p) good));
              lon =
                  u32_bytes (cast (2 ^ 32) (scaled d p.lon_deg 600000))
                    (cast-lt (scaled d p.lon_deg 600000));
              lat =
                  u32_bytes (cast (2 ^ 32) (scaled d p.lat_deg 600000))
                    (cast-lt (scaled d p.lat_deg 600000));
              altitude =
                  ap (signed 32768) (u16_bytes (cast (2 ^ 16) altitude) (cast_16-lt altitude))
                  ∙ signed-clamp_i16
                      (d.llround (d.over (d.of_int p.altitude_ft) (d.of_int (pos 25))));
              track_field =
                  u16_bytes (clamp_u16 (scaled d (track d p) 10))
                    (clamp_u16-lt (scaled d (track d p) 10));
              speed =
                  u16_bytes (clamp_u16 (scaled d (ground_speed d p) 10))
                    (clamp_u16-lt (scaled d (ground_speed d p) 10));
              vertical_rate =
                  ap (signed 32768) (u16_bytes (cast (2 ^ 16) rate) (cast_16-lt rate))
                  ∙ signed-clamp_i16 p.vertical_rate_fpm;
            })
      ]
