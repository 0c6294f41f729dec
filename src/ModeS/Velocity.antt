-- ===== src/ModeS/Velocity.antt =====
-- mode_s.c: `decodeESAirborneVelocity`, and the movement fields of a surface position.
use hpr_readsb.Base.{ℕ, ◌+◌, ◌-◌, ◌*◌, ◌%◌, ◌^◌, Bool, not, ◌&&◌, ◌||◌}
use hpr_readsb.Base.{Option, none, some, List, ◌==◌, ltb, leb, if◌then◌else◌}
use hpr_readsb.Base.Doubles.{Doubles}
use hpr_readsb.Base.Int.{ℤ, pos, negsuc, pos_part, neg_part}
use hpr_readsb.ModeS.Bits.{getbit, getbits}
use hpr_readsb.ModeS.Message.{Message}
use hpr_readsb.ModeS.Payload.{set_imf}

-- An `int` with the bits of an unsigned integer.
unfoldable pub as_int : ℕ → ℤ
as_int u = if ltb u (2 ^ 31) then pos u else negsuc (2 ^ 32 - 1 - u)

-- `(raw - 1) * (negative ? -factor : factor)`, in unsigned arithmetic, as an `int`.
unfoldable pub signed_field : ℕ → Bool → ℕ → ℤ
signed_field raw negative factor =
    let by = if negative then 2 ^ 32 - factor else factor in
    as_int ((raw + 2 ^ 32 - 1) % 2 ^ 32 * by % 2 ^ 32)

-- `(raw - 1) * (negative ? -1 : 1) * factor`
unfoldable pub speed_field : ℕ → Bool → ℕ → ℤ
speed_field raw negative factor =
    let by = if negative then 2 ^ 32 - 1 else 1 in
    as_int ((raw + 2 ^ 32 - 1) % 2 ^ 32 * by % 2 ^ 32 * factor % 2 ^ 32)

-- `v * v`
abbrev pub square : ℤ → ℕ
square v = (pos_part v + neg_part v) * (pos_part v + neg_part v)

-- `heading_type_t`
pub data HeadingType : Type 0 where
  heading_invalid heading_ground_track heading_true heading_magnetic heading_magnetic_or_true
        heading_track_or_heading :
      HeadingType

module _ (d : Doubles) (pi : d.Double) where
  abbrev pub of_nat : ℕ → d.Double
  of_nat n = d.of_int (pos n)

  -- `ground_track`, all of it in floats.
  unfoldable pub ground_track : ℤ → ℤ → d.Double
  ground_track ew ns =
      let angle = d.atan2f (d.of_int ew) (d.of_int ns) in
      let t = d.to_float (d.over (d.to_float (d.times angle (of_nat 180))) (d.to_float pi)) in
      if d.less t (of_nat 0) then d.to_float (d.add t (of_nat 360)) else t

  -- `gs`
  unfoldable pub ground_speed : ℤ → ℤ → d.Double
  ground_speed ew ns =
      d.to_float (d.sqrt (d.to_float (d.add (of_nat (square ns + square ew)) (d.decimal 5 1))))

  pub record Heading : Type 0 where
    pub heading : d.Double
    pub heading_type : HeadingType

  -- What `decodeESAirborneVelocity` stores; `none` is a field that it leaves.
  pub record Velocity : Type 0 where
    pub nac_v : ℕ
    pub gs : Option d.Double
    pub course : Option Heading
    pub tas : Option ℕ
    pub ias : Option ℕ
    pub baro_rate : Option ℤ
    pub geom_rate : Option ℤ
    pub geom_delta : Option ℤ

  -- Subtypes 1 and 2: the ground speed and the track.
  unfoldable pub speed_over_ground : List ℕ → ℕ → Option (d.Double × Option Heading)
  speed_over_ground me mesub =
      let ew_raw = getbits me 15 24 in
      let ns_raw = getbits me 26 35 in
      let factor = if mesub == 2 then 4 else 1 in
      let ew = speed_field ew_raw (not (getbit me 14 == 0)) factor in
      let ns = speed_field ns_raw (not (getbit me 25 == 0)) factor in
      let gs = ground_speed ew ns in
      let course : Heading = record {
        heading = ground_track ew ns;
        heading_type = heading_ground_track;
      } in
      if not (ew_raw == 0) && not (ns_raw == 0)
      then some (gs, if d.less (of_nat 0) gs then some course else none)
      else none

  -- Subtypes 3 and 4: the heading.
  unfoldable pub air_heading : List ℕ → Option Heading
  air_heading me =
      let heading =
        d.to_float (d.over (d.times (of_nat (getbits me 15 24)) (of_nat 360)) (of_nat 1024)) in
      if getbit me 14 == 0
      then none
      else some (record { heading = heading; heading_type = heading_magnetic_or_true })

  -- Their airspeed.
  unfoldable pub air_speed : List ℕ → ℕ → Option ℕ
  air_speed me mesub =
      let airspeed = getbits me 26 35 in
      if airspeed == 0 then none else some ((airspeed - 1) * (if mesub == 4 then 4 else 1))

  -- The vertical rate, whatever its source.
  unfoldable pub vert_rate : List ℕ → Option ℤ
  vert_rate me =
      let raw = getbits me 38 46 in
      if raw == 0 then none else some (signed_field raw (not (getbit me 37 == 0)) 64)

  -- The difference of the two altitudes.
  unfoldable pub alt_delta : List ℕ → Option ℤ
  alt_delta me =
      let raw = getbits me 50 56 in
      if raw == 0 then none else some (signed_field raw (not (getbit me 49 == 0)) 25)

  unfoldable pub velocity : List ℕ → ℕ → Velocity
  velocity me mesub =
      let over_ground = leb mesub 2 in
      let is_tas = not (getbit me 25 == 0) in
      let is_baro = not (getbit me 36 == 0) in
      let ground = speed_over_ground me mesub in
      record {
        nac_v = getbits me 11 13;
        gs = if over_ground then elim ground [ none ↦ none | some g ↦ some g.0 ] else none;
        course = if over_ground then elim ground [ none ↦ none | some g ↦ g.1 ] else air_heading me;
        tas = if not over_ground && is_tas then air_speed me mesub else none;
        ias = if not over_ground && not is_tas then air_speed me mesub else none;
        baro_rate = if is_baro then vert_rate me else none;
        geom_rate = if is_baro then none else vert_rate me;
        geom_delta = alt_delta me;
      }

  -- `decodeESAirborneVelocity`: the message, and what it stores, if it goes on.
  unfoldable pub decode_es_airborne_velocity : Message → Bool → Message × Option Velocity
  decode_es_airborne_velocity m check_imf =
      let mesub = getbits m.me 6 8 in
      let typed = record m { mesub = mesub } in
      if ltb mesub 1 || ltb 4 mesub then (typed, none) else (
        if check_imf && not (getbit m.me 9 == 0) then set_imf typed else typed,
        some (velocity m.me mesub),
      )
