-- ===== src/ModeS/Positions.antt =====
-- mode_s.c: the decoders of the extended squitters with a position or a status. What a message has
-- no field for here is stored apart.
use hpr_readsb.Base.{ℕ, ◌-◌, Bool, true, false, not, ◌&&◌, ◌||◌, bit_and}
use hpr_readsb.Base.{Option, none, some, ◌==◌, ltb, leb, if◌then◌else◌}
use hpr_readsb.Base.Doubles.{Doubles}
use hpr_readsb.Base.Int.{ℤ, ltb_ℤ}
use hpr_readsb.ModeAc.{AcTables, invalid_altitude}
use hpr_readsb.ModeS.Bits.{getbit, getbits}
use hpr_readsb.ModeS.Fields.{Altitude, AltitudeUnit, decode_ac12_field}
use hpr_readsb.ModeS.Message.{Message, AirGround, ag_ground}
use hpr_readsb.ModeS.Payload.{set_imf}
use hpr_readsb.ModeS.Decode.Body.{set_squawk_from_id13}
use hpr_readsb.ModeS.Velocity.{Heading, heading_track_or_heading, of_nat}

-- `cpr_type_t`, for the two types that are set here.
pub data CprType : Type 0 where
  cpr_surface cpr_airborne : CprType

-- A position in compact form.
pub record Cpr : Type 0 where
  pub cpr_type : CprType
  pub cpr_odd : ℕ
  pub cpr_lat : ℕ
  pub cpr_lon : ℕ

abbrev pub imf_if : Bool → Message → Message
imf_if true m = set_imf m
imf_if false m = m

module _ (d : Doubles) (pi : d.Double) where
  -- `base + (movement - first + 0.5) * step`, a float.
  unfoldable pub movement_step : d.Double → ℕ → ℕ → d.Double → d.Double
  movement_step base movement first step =
      d.to_float
        (d.add base (d.times (d.add (of_nat d pi (movement - first)) (d.decimal 5 1)) step))

  -- What the two movement fields have in common, from 1 knot on.
  unfoldable pub fast_movement : ℕ → d.Double
  fast_movement movement =
      if movement == 124
      then of_nat d pi 180
      else if leb 109 movement
      then movement_step (of_nat d pi 100) movement 109 (of_nat d pi 5)
      else if leb 94 movement
      then movement_step (of_nat d pi 70) movement 94 (of_nat d pi 2)
      else if leb 39 movement
      then movement_step (of_nat d pi 15) movement 39 (of_nat d pi 1)
      else if leb 13 movement
      then movement_step (of_nat d pi 2) movement 13 (d.decimal 5 1)
      else movement_step (of_nat d pi 1) movement 9 (d.decimal 25 2)

  -- `decodeMovementFieldV0`
  unfoldable pub decode_movement_field_v0 : ℕ → d.Double
  decode_movement_field_v0 movement =
      if leb 125 movement
      then of_nat d pi 0
      else if leb 9 movement
      then fast_movement movement
      else if leb 2 movement
      then movement_step (d.decimal 125 3) movement 2 (d.decimal 125 3)
      else of_nat d pi 0

  -- `decodeMovementFieldV2`
  unfoldable pub decode_movement_field_v2 : ℕ → d.Double
  decode_movement_field_v2 movement =
      let steps = d.add (of_nat d pi (movement - 3)) (d.decimal 5 1) in
      let slow = d.over (d.times steps (d.decimal 875 3)) (of_nat d pi 6) in
      if leb 125 movement
      then of_nat d pi 0
      else if leb 9 movement
      then fast_movement movement
      else if leb 3 movement
      then d.to_float (d.add (d.decimal 125 3) slow)
      else if leb 2 movement
      then d.to_float (d.over (d.decimal 125 3) (of_nat d pi 2))
      else of_nat d pi 0

  pub record Surface : Type 0 where
    pub cpr : Cpr
    pub gs_v0 : Option d.Double
    pub gs_v2 : Option d.Double
    pub course : Option (Heading d pi)

  -- `decodeESSurfacePosition`; `gs.selected` is `gs.v0`.
  unfoldable pub decode_es_surface_position : Message → Bool → Message × Surface
  decode_es_surface_position m check_imf =
      let me = m.me in
      let movement = getbits me 6 12 in
      let moves = ltb 0 movement && ltb movement 125 in
      let heading =
        d.to_float
          (d.over (d.times (of_nat d pi (getbits me 14 20)) (of_nat d pi 360)) (of_nat d pi 128)) in
      let course : Heading d pi = record {
        heading = heading;
        heading_type = heading_track_or_heading;
      } in
      (
        imf_if (check_imf && not (getbit me 21 == 0)) (record m { airground = ag_ground }),
        record {
          cpr = record {
            cpr_type = cpr_surface;
            cpr_odd = getbit me 22;
            cpr_lat = getbits me 23 39;
            cpr_lon = getbits me 40 56;
          };
          gs_v0 = if moves then some (decode_movement_field_v0 movement) else none;
          gs_v2 = if moves then some (decode_movement_field_v2 movement) else none;
          course = if getbit me 13 == 0 then none else some course;
        },
      )

-- The surveillance status, bits 6 and 7.
unfoldable pub surveillance_status : ℕ → Message → Message
surveillance_status status m =
    if status == 0
    then record m { alert_valid = true; spi_valid = true; alert = false; spi = false }
    else if status == 3
    then record m { alert_valid = true; spi_valid = true; alert = false; spi = true }
    else record m { alert_valid = true; alert = true }

abbrev is_ground : AirGround → Bool
is_ground ag_ground = true
is_ground a = false

abbrev pub is_invalid : ℤ → Bool
is_invalid v = not (ltb_ℤ v invalid_altitude) && not (ltb_ℤ invalid_altitude v)

pub record Airborne : Type 0 where
  pub nic_b : Option ℕ
  -- `cpr_lat` and `cpr_lon`, for a filtered position too.
  pub cpr_fields : Option (ℕ × ℕ)
  pub cpr : Option Cpr
  -- `Modes.stats_current.cpr_filtered` is counted up.
  pub filtered : Bool
  pub geom_alt : Option (ℤ × AltitudeUnit)

-- The altitude field of an airborne position.
unfoldable pub put_altitude : Altitude → Bool → Message → Message
put_altitude a is_geom m = if is_geom then record m { alt_q_bit = a.q_bit } else record m {
  alt_q_bit = a.q_bit;
  baro_alt = a.value;
  baro_alt_unit = a.unit;
  baro_alt_valid = true;
}

-- A failure of transponders that is not used for a position.
unfoldable pub is_zero_position : Message → Bool
is_zero_position m =
    getbits m.me 9 20 == 0
    && getbits m.me 40 56 == 0
    && bit_and (getbits m.me 23 39) 0x0fff == 0
    && m.metype == 15

-- `decodeESAirbornePosition`
unfoldable pub decode_es_airborne_position : AcTables → Message → Bool → Message × Airborne
decode_es_airborne_position tables m check_imf =
    let me = m.me in
    let ac12 = getbits me 9 20 in
    let status = surveillance_status (getbits me 6 7) m in
    let marked = imf_if (check_imf && not (getbit me 8 == 0)) status in
    let a = decode_ac12_field tables ac12 in
    let is_geom = m.metype == 20 || m.metype == 21 || m.metype == 22 in
    let has_alt = not (ac12 == 0) && not (is_ground m.airground) && not (is_invalid a.value) in
    let cpr : Cpr = record {
      cpr_type = cpr_airborne;
      cpr_odd = getbit me 22;
      cpr_lat = getbits me 23 39;
      cpr_lon = getbits me 40 56;
    } in
    (
      if has_alt then put_altitude a is_geom marked else marked,
      record {
        nic_b = if check_imf then none else some (getbit me 8);
        cpr_fields = if m.metype == 0 then none else some (getbits me 23 39, getbits me 40 56);
        cpr = if m.metype == 0 || is_zero_position m then none else some cpr;
        filtered = not (m.metype == 0) && is_zero_position m;
        geom_alt = if has_alt && is_geom then some (a.value, a.unit) else none;
      },
    )

-- `decodeESTestMessage`
unfoldable pub decode_es_test_message : Message → Message
decode_es_test_message m =
    let mesub = getbits m.me 6 8 in
    let typed = record m { mesub = mesub } in
    let id13 = getbits m.me 9 21 in
    if mesub == 7 && not (id13 == 0) then set_squawk_from_id13 typed id13 else typed

-- `decodeESAircraftStatus`, with the emergency state if there is one.
unfoldable pub decode_es_aircraft_status : Message → Bool → Message × Option ℕ
decode_es_aircraft_status m check_imf =
    let mesub = getbits m.me 6 8 in
    let typed = record m { mesub = mesub } in
    let id13 = getbits m.me 12 24 in
    let coded = if id13 == 0 then typed else set_squawk_from_id13 typed id13 in
    if mesub == 1
    then (imf_if (check_imf && not (getbit m.me 56 == 0)) coded, some (getbits m.me 9 11))
    else if mesub == 2
    then (record typed { acas_ra_valid = true }, none)
    else (typed, none)
