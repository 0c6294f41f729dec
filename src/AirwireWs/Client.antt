-- ===== src/AirwireWs/Client.antt =====
-- hpr_airwire_ws.c: a client, the aircraft it knows, its bounding box, and the cache of records
-- whose snapshot it is sent.
use hpr_readsb.Base.{ℕ, ◌+◌, ◌*◌, Bool, true, false, not, ◌&&◌, ◌||◌}
use hpr_readsb.Base.{Option, none, some, List, [], ◌∷◌, ◌++◌}
use hpr_readsb.Base.{◌==◌, leb, if◌then◌else◌, length}
use hpr_readsb.Base.Doubles.{Doubles}
use hpr_readsb.Base.Int.{ℤ}
use hpr_readsb.AirwireWs.Frame.{ws_frame}

-- `HPR_WS_CACHE_MAX`
abbrev pub cache_max : ℕ
cache_max = 2048

-- `HPR_AIRWIRE_POS_SIZE`, `HPR_AIRWIRE_IDENT_SIZE` and `HPR_WS_PAYLOAD_MAX`
abbrev pub pos_size : ℕ
pos_size = 20

abbrev pub ident_size : ℕ
ident_size = 15

abbrev pub payload_max : ℕ
payload_max = 2048 * (20 + 15)

-- Is the address one of a list?
unfoldable pub knows : List ℕ → ℕ → Bool
knows [] icao = false
knows (k ∷ known) icao = k == icao || knows known icao

module _ (d : Doubles) where
  pub record Bbox : Type 0 where
    pub south : d.Double
    pub north : d.Double
    pub west : d.Double
    pub east : d.Double

  -- `hpr_ws_client_t`, with `none` for a bounding box that is not set.
  pub record Client : Type 0 where
    pub bbox : Option Bbox
    pub rx : List ℕ
    pub known : List ℕ

  -- `hpr_ws_cache_t`
  pub record Entry : Type 0 where
    pub icao : ℕ
    pub position : List ℕ
    pub ident : List ℕ
    pub have_pos : Bool
    pub lat : d.Double
    pub lon : d.Double
    pub last_seen_ms : ℤ
    pub last_pos_sent_ms : ℤ

  pub client_knows : Client → ℕ → Bool
  client_knows c icao = knows c.known icao

  -- `client_mark_known`, on the addresses.
  unfoldable pub mark_known : List ℕ → ℕ → List ℕ
  mark_known known icao =
      if knows known icao || leb cache_max (length known) then known else known ++ (icao ∷ [])

  pub client_mark_known : Client → ℕ → Client
  client_mark_known c icao = record c { known = mark_known c.known icao }

  -- `bbox_match`
  unfoldable pub bbox_match : Option Bbox → Bool → d.Double → d.Double → Bool
  bbox_match none have_pos lat lon = true
  bbox_match (some box) have_pos lat lon =
      if not have_pos || d.less lat box.south || d.less box.north lat
      then false
      else if d.at_most box.west box.east
      then d.at_most box.west lon && d.at_most lon box.east
      else d.at_most box.west lon || d.at_most lon box.east

  -- The loop of `send_snapshot`: the bytes so far and the addresses that are known.
  unfoldable pub snapshot : Option Bbox → List Entry → List ℕ → List ℕ → List ℕ × List ℕ
  snapshot box [] out known = (out, known)
  snapshot box (x ∷ cache) out known =
      let fits = leb (length out + pos_size) payload_max in
      let out_pos = if x.have_pos && fits then out ++ x.position else out in
      let ident_fits = leb (length out_pos + ident_size) payload_max in
      let out_ident = if ident_fits then out_pos ++ x.ident else out_pos in
      let marked = if ident_fits then mark_known known x.icao else known in
      let skip = not (bbox_match box x.have_pos x.lat x.lon) in
      snapshot box cache (if skip then out else out_ident) (if skip then known else marked)

  -- `send_snapshot` up to `ws_send`: the client and the frame.
  unfoldable pub send_snapshot : List Entry → Client → Client × List ℕ
  send_snapshot cache c =
      let done = snapshot c.bbox cache [] [] in (record c { known = done.1 }, ws_frame 2 done.0)
