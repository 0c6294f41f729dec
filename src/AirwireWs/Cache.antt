-- ===== src/AirwireWs/Cache.antt =====
-- hpr_airwire_ws.c: `cache_find`, `scan_changes` and its eviction of stale aircraft.
use hpr_readsb.Base.{ℕ, zero, suc, ◌%◌, ◌/◌, ◌^◌, Bool, true, false, not, ◌&&◌, ◌||◌}
use hpr_readsb.Base.{Option, none, some, List, [], ◌∷◌, ◌++◌, ◌==◌, ltb, leb, if◌then◌else◌}
use hpr_readsb.Base.{length}
use hpr_readsb.Base.Doubles.{Doubles}
use hpr_readsb.Base.Int.{ℤ, pos, negsuc, ltb_ℤ}
use hpr_readsb.Airwire.{hpr_airwire_encode_position, hpr_airwire_encode_identity}
use hpr_readsb.AirwireWs.Client.{Entry, cache_max}
use hpr_readsb.AirwireWs.Aircraft.{
  Aircraft, Settings, include_aircraft_json, map_position, map_identity, track_data_valid, minus,
}

-- `memcmp`
unfoldable pub same_bytes : List ℕ → List ℕ → Bool
same_bytes [] [] = true
same_bytes [] (y ∷ ys) = false
same_bytes (x ∷ xs) [] = false
same_bytes (x ∷ xs) (y ∷ ys) = x == y && same_bytes xs ys

unfoldable pub is_zero : ℤ → Bool
is_zero (pos n) = n == 0
is_zero (negsuc n) = false

abbrev pub is_some : Option (List ℕ) → Bool
is_some none = false
is_some (some bytes) = true

abbrev pub bytes_or : List ℕ → Option (List ℕ) → List ℕ
bytes_or old none = old
bytes_or old (some bytes) = bytes

module _ (d : Doubles) where
  -- `hpr_ws_change_t`
  pub record Change : Type 0 where
    pub icao : ℕ
    pub position : List ℕ
    pub ident : List ℕ
    pub pos_changed : Bool
    pub ident_changed : Bool
    pub have_pos : Bool
    pub lat : d.Double
    pub lon : d.Double

  -- A new entry, after `memset`. The arrays are 20 and 15 zeros.
  unfoldable pub new_entry : ℕ → Entry d
  new_entry icao = record {
    icao = icao;
    position = 0 ∷ 0 ∷ 0 ∷ 0 ∷ 0 ∷ 0 ∷ 0 ∷ 0 ∷ 0 ∷ 0 ∷ 0 ∷ 0 ∷ 0 ∷ 0 ∷ 0 ∷ 0 ∷ 0 ∷ 0 ∷ 0 ∷ 0 ∷ [];
    ident = 0 ∷ 0 ∷ 0 ∷ 0 ∷ 0 ∷ 0 ∷ 0 ∷ 0 ∷ 0 ∷ 0 ∷ 0 ∷ 0 ∷ 0 ∷ 0 ∷ 0 ∷ [];
    have_pos = false;
    lat = d.of_int (pos 0);
    lon = d.of_int (pos 0);
    last_seen_ms = pos 0;
    last_pos_sent_ms = pos 0;
  }

  -- The entry of an address, or a new one.
  unfoldable pub find_or_new : List (Entry d) → ℕ → Entry d
  find_or_new [] icao = new_entry icao
  find_or_new (x ∷ cache) icao = if x.icao == icao then x else find_or_new cache icao

  -- `cache_find`, as a condition.
  unfoldable pub cache_finds : List (Entry d) → ℕ → Bool
  cache_finds [] icao = false
  cache_finds (x ∷ cache) icao = x.icao == icao || cache_finds cache icao

  -- The entry of an address is written, in its place or at the end.
  unfoldable pub put_entry : List (Entry d) → Entry d → List (Entry d)
  put_entry [] y = y ∷ []
  put_entry (x ∷ cache) y = elim (x.icao == y.icao) [
    | true ↦ y ∷ cache
    | false ↦ x ∷ put_entry cache y
  ]

  -- The loop of `scan_changes`: the cache and the changes so far.
  pub record Scan : Type 0 where
    pub cache : List (Entry d)
    pub changes : List Change

  module _ (settings : Settings) (now : ℤ) where
    -- `pos_changed`, given the entry and the frame.
    unfoldable pub pos_changed : Entry d → Option (List ℕ) → Bool
    pos_changed x none = false
    pos_changed x (some frame) =
        not x.have_pos
        || not (same_bytes x.position frame)
        || not (ltb_ℤ (minus now x.last_pos_sent_ms) (pos 15000))

    -- `id_changed`
    unfoldable pub id_changed : Entry d → Option (List ℕ) → Bool
    id_changed x none = false
    id_changed x (some frame) = is_zero x.last_seen_ms || not (same_bytes x.ident frame)

    -- `pos_ok` and its frame
    unfoldable pub position_frame : Aircraft d → Option (List ℕ)
    position_frame a =
        if track_data_valid a.pos_reliable_valid
        then hpr_airwire_encode_position d (map_position d settings a)
        else none

    unfoldable pub identity_frame : Aircraft d → Option (List ℕ)
    identity_frame a = hpr_airwire_encode_identity (map_identity d a)

    -- The entry, after the aircraft was seen.
    unfoldable pub seen_entry : Entry d → Aircraft d → Entry d
    seen_entry x a =
        let p = map_position d settings a in
        record {
          icao = x.icao;
          position = bytes_or x.position (position_frame a);
          ident = bytes_or x.ident (identity_frame a);
          have_pos = is_some (position_frame a);
          lat = p.lat_deg;
          lon = p.lon_deg;
          last_seen_ms = now;
          last_pos_sent_ms = if pos_changed x (position_frame a) then now else x.last_pos_sent_ms;
        }

    -- The change, which has zeros for a frame that was not made.
    unfoldable pub change_of : Entry d → Aircraft d → Change
    change_of x a =
        let p = map_position d settings a in
        record {
          icao = x.icao;
          position = bytes_or (new_entry 0).position (position_frame a);
          ident = bytes_or (new_entry 0).ident (identity_frame a);
          pos_changed = pos_changed x (position_frame a);
          ident_changed = id_changed x (identity_frame a);
          have_pos = is_some (position_frame a);
          lat = p.lat_deg;
          lon = p.lon_deg;
        }

    -- What follows the tests of the loop, for the entry of the aircraft.
    unfoldable pub see : Scan → Entry d → Aircraft d → Scan
    see scan x a =
        let changed = pos_changed x (position_frame a) || id_changed x (identity_frame a) in
        record {
          cache = put_entry scan.cache (seen_entry x a);
          changes =
              if changed && ltb (length scan.changes) cache_max
              then scan.changes ++ (change_of x a ∷ [])
              else scan.changes;
        }

    -- One pass of the loop.
    unfoldable pub scan_aircraft : Scan → Option (Aircraft d) → Scan
    scan_aircraft scan none = scan
    scan_aircraft scan (some a) =
        let icao = a.addr % 2 ^ 24 in
        if not (include_aircraft_json d settings now a)
        then scan
        else if not (a.addr / 2 ^ 24 % 2 == 0)
        then scan
        else if icao == 0
        then scan
        else if not (cache_finds scan.cache icao) && leb cache_max (length scan.cache)
        then scan
        else see scan (find_or_new scan.cache icao) a

    unfoldable pub scan_list : Scan → List (Option (Aircraft d)) → Scan
    scan_list scan [] = scan
    scan_list scan (a ∷ list) = scan_list (scan_aircraft scan a) list

    -- Was the aircraft last seen more than `HPR_WS_STALE_MS` ago?
    unfoldable pub is_stale : Entry d → Bool
    is_stale x = ltb_ℤ (pos 120000) (minus now x.last_seen_ms)

  -- The last entry of the cache takes the place of the one before these.
  unfoldable pub move_last : List (Entry d) → List (Entry d)
  move_last [] = []
  move_last (x ∷ []) = x ∷ []
  move_last (x ∷ y ∷ cache) = elim (move_last (y ∷ cache)) [ [] ↦ x ∷ [] | z ∷ rest ↦ z ∷ x ∷ rest ]

  -- The second loop of `scan_changes`, with a pass for each entry that is left.
  unfoldable pub evict : (Entry d → Bool) → ℕ → List (Entry d) → List (Entry d)
  evict stale zero cache = []
  evict stale (suc left) [] = []
  evict stale (suc left) (x ∷ cache) = elim (stale x) [
    | true ↦ evict stale left (move_last cache)
    | false ↦ x ∷ evict stale left cache
  ]

  -- `scan_changes`, for `Modes.aircraftActive.list`.
  unfoldable pub scan_changes : Settings → ℤ → List (Option (Aircraft d)) → List (Entry d) → Scan
  scan_changes settings now list cache =
      let scan = scan_list settings now (record { cache = cache; changes = [] }) list in
      record scan { cache = evict (is_stale settings now) (length scan.cache) scan.cache }
