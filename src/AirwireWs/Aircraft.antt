-- ===== src/AirwireWs/Aircraft.antt =====
-- What the feed takes from an aircraft: `map_aircraft` of hpr_airwire_ws.c, with the tests of
-- track.h and json_out.c that it and the scan use.
use hpr_readsb.Base.{ℕ, zero, suc, ◌%◌, ◌^◌, Bool, true, false, not, ◌&&◌}
use hpr_readsb.Base.{reverse_onto, List, [], ◌∷◌, ◌==◌, ltb, leb, if◌then◌else◌}
use hpr_readsb.Base.Doubles.{Doubles}
use hpr_readsb.Base.Int.{ℤ, pos, negsuc, ltb_ℤ, ◌+ℤ◌}
use hpr_readsb.ModeS.Message.{Source, source_invalid, source_jaero, addr_other}
use hpr_readsb.Airwire.{Position, Identity}

abbrev pub addr_jaero : ℕ
addr_jaero = 4

-- `trackDataValid`, for the source of a field.
unfoldable pub track_data_valid : Source → Bool
track_data_valid source_invalid = false
track_data_valid s = true

unfoldable pub is_jaero : Source → Bool
is_jaero source_jaero = true
is_jaero s = false

-- `a - b`
unfoldable pub minus : ℤ → ℤ → ℤ
minus a (pos zero) = a
minus a (pos (suc n)) = a +ℤ negsuc n
minus a (negsuc n) = a +ℤ pos (suc n)

-- The settings that are read.
pub record Settings : Type 0 where
  pub json_reliable : ℤ
  pub track_expire_jaero : ℤ

-- The spaces at the end of a callsign become 0, given the characters from the last one on.
unfoldable pub trim : List ℕ → List ℕ
trim [] = []
trim (ch ∷ chars) = elim (ch == 0x20) [ true ↦ trim chars | false ↦ ch ∷ chars ]

-- The characters of the callsign, at most `left`, the last one first.
unfoldable pub last_first : ℕ → List ℕ → List ℕ → List ℕ
last_first zero callsign done = done
last_first (suc left) [] done = done
last_first (suc left) (ch ∷ callsign) done = elim (ch == 0) [
  | true ↦ done
  | false ↦ last_first left callsign (ch ∷ done)
]

-- The callsign in the identity.
pub callsign_of : List ℕ → List ℕ
callsign_of callsign = reverse_onto (trim (last_first 8 callsign [])) []

module _ (d : Doubles) where
  -- The members of `struct aircraft` that the feed reads; a validity is its source.
  pub record Aircraft : Type 0 where
    pub addr : ℕ
    pub addrtype : ℕ
    pub messages : ℕ
    pub nogps_counter : ℕ
    pub seen_adsb_reliable : ℤ
    pub seen : ℤ
    pub pos_reliable_valid : Source
    pub position_valid : Source
    pub lat_reliable : d.Double
    pub lon_reliable : d.Double
    pub alt_reliable : ℤ
    pub baro_alt_valid : Source
    pub baro_alt : ℤ
    pub geom_alt_valid : Source
    pub geom_alt : ℤ
    pub track_valid : Source
    pub track : d.Double
    pub gs_valid : Source
    pub gs : d.Double
    pub baro_rate_valid : Source
    pub baro_rate : ℤ
    pub geom_rate_valid : Source
    pub geom_rate : ℤ
    pub callsign_valid : Source
    pub callsign : List ℕ
    pub category : ℕ
    pub squawk_valid : Source
    pub squawk : ℕ

  -- `includeAircraftJson`, for a pointer that is not null.
  unfoldable pub include_aircraft_json : Settings → ℤ → Aircraft → Bool
  include_aircraft_json settings now a =
      let waits = minus now a.seen_adsb_reliable in
      if track_data_valid a.pos_reliable_valid
      then true
      else if ltb a.messages 2 && not (a.addrtype == addr_jaero) && not (a.addrtype == addr_other)
      then false
      else if leb 17 a.nogps_counter && ltb_ℤ waits (pos 900000)
      then true
      else if ltb_ℤ now (a.seen +ℤ pos 60000)
      then true
      else a.addrtype == addr_jaero && ltb_ℤ now (a.seen +ℤ settings.track_expire_jaero)

  -- `altBaroReliable`
  unfoldable pub alt_baro_reliable : Settings → Aircraft → Bool
  alt_baro_reliable settings a =
      if not (track_data_valid a.baro_alt_valid)
      then false
      else if is_jaero a.position_valid
      then true
      else not (ltb_ℤ a.alt_reliable (settings.json_reliable +ℤ settings.json_reliable))

  -- `map_aircraft`: the position, the identity and `have_pos`.
  unfoldable pub map_position : Settings → Aircraft → Position d
  map_position settings a =
      let zero = d.of_int (pos 0) in
      let have_pos = track_data_valid a.pos_reliable_valid in
      record {
        icao = a.addr % 2 ^ 24;
        lat_deg = if have_pos then a.lat_reliable else zero;
        lon_deg = if have_pos then a.lon_reliable else zero;
        altitude_ft =
            if alt_baro_reliable settings a
            then a.baro_alt
            else if track_data_valid a.geom_alt_valid
            then a.geom_alt
            else pos 0;
        track_deg = if track_data_valid a.track_valid then a.track else zero;
        ground_speed_kt = if track_data_valid a.gs_valid then a.gs else zero;
        vertical_rate_fpm =
            if track_data_valid a.baro_rate_valid
            then a.baro_rate
            else if track_data_valid a.geom_rate_valid
            then a.geom_rate
            else pos 0;
      }

  unfoldable pub map_identity : Aircraft → Identity
  map_identity a = record {
    icao = a.addr % 2 ^ 24;
    callsign = if track_data_valid a.callsign_valid then callsign_of a.callsign else [];
    category = a.category % 2 ^ 8;
    squawk = if track_data_valid a.squawk_valid then a.squawk % 2 ^ 16 else 0;
  }
