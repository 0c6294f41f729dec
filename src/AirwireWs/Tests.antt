-- ===== src/AirwireWs/Tests.antt =====
-- Frames, scans and snapshots, with integers for the doubles.
use hpr_readsb.Base.{
  ℕ, ◌≡◌, refl, arith, true, false, some, none, List, [], ◌∷◌, ◌++◌, length, replicate, ◌≤◌, ◌&&◌,
  not,
}
use hpr_readsb.Base.Doubles.Integers.{integers}
use hpr_readsb.Base.Int.{pos, negsuc}
use hpr_readsb.ModeS.Message.{source_invalid, source_adsb}
use hpr_readsb.AirwireWs.Frame.{frame, read_frame, ws_frame}
use hpr_readsb.AirwireWs.Client.{Client, Entry, send_snapshot, knows, cache_max}
use hpr_readsb.AirwireWs.Reader.{would_block, System, Connection, read_frames, client_read}
use hpr_readsb.AirwireWs.Wire.{Mask, client_frame, read_frame-client_frame, masked, client_header}
use hpr_readsb.AirwireWs.Stream.{with_rx}
use hpr_readsb.AirwireWs.Ending.{Ended, client_read-Ended}
use hpr_readsb.AirwireWs.Replies.{Incoming, stream, answers, outcome_of, read_frames-answers}
use hpr_readsb.AirwireWs.Aircraft.{
  Aircraft, Settings, track_data_valid, map_position, map_identity, alt_baro_reliable, is_jaero,
}
use hpr_readsb.Airwire.{
  hpr_airwire_encode_position, hpr_airwire_encode_identity, valid_icao, valid_coordinates,
}
use hpr_readsb.AirwireWs.Cache.{
  Change, pos_changed, position_frame, is_zero, scan_changes, is_stale, seen_entry, change_of,
  id_changed, identity_frame, new_entry, evict,
}
use hpr_readsb.AirwireWs.Eviction.{count, count-evict}
use hpr_readsb.AirwireWs.Bounds.{IsCache}
use hpr_readsb.AirwireWs.Invariant.{IsScan, scan_changes-IsScan}
use hpr_readsb.AirwireWs.Changes.{send_changes}
use hpr_readsb.AirwireWs.Sending.{IsFrame, send_changes-IsFrame}
use hpr_readsb.AirwireWs.Payload.{picture, pictured, send_snapshot-picture}
use hpr_readsb.AirwireWs.Omission.{send_changes-identity_lost}

abbrev mask : Mask
mask = record { m0 = 0x37; m1 = 0xfa; m2 = 0x21; m3 = 0x3d }

-- The masked text frame "Hello" of RFC 6455.
abbrev hello : List ℕ
hello = 0x48 ∷ 0x65 ∷ 0x6c ∷ 0x6c ∷ 0x6f ∷ []

hello_frame :
    client_frame 1 mask hello
    ≡ 0x81 ∷ 0x85 ∷ 0x37 ∷ 0xfa ∷ 0x21 ∷ 0x3d ∷ 0x7f ∷ 0x9f ∷ 0x4d ∷ 0x51 ∷ 0x58 ∷ []
unfolding client_frame client_header masked
hello_frame = refl

read_frame-client_frame_example :
    read_frame (client_frame 1 mask hello ++ (0x81 ∷ []))
    ≡ frame 1 hello (length (client_frame 1 mask hello))
read_frame-client_frame_example =
    read_frame-client_frame 1 mask hello (0x81 ∷ []) (omega arith) (omega arith)

abbrev client : Client integers
client = record { bbox = none; rx = []; known = [] }

abbrev connection : Connection integers
connection = record { client = client; sent = [] }

abbrev system : System integers
system = record {
  scan_box = λ text. record { count = 4; s = pos 1; n = pos 2; w = pos 3; e = pos 4 };
  sends = λ sent bytes. true;
}

abbrev cache : List (Entry integers)
cache = new_entry integers 0xabcdef ∷ []

cache-IsCache : IsCache integers cache
unfolding count new_entry
cache-IsCache = record {
  small = omega arith;
  distinct = λ icao. ground arith;
  sized = ((refl, refl), tt);
}

client_read-Ended_example :
    Ended integers system cache
      (client_read integers system cache (client_frame 9 mask hello ∷ []) would_block connection)
client_read-Ended_example =
    client_read-Ended integers system cache (client_frame 9 mask hello ∷ []) would_block connection
      (omega arith)

abbrev messages : List Incoming
messages =
    record { opcode = 9; mask = mask; payload = hello }
    ∷ record { opcode = 1; mask = mask; payload = hello }
    ∷ []

read_frames-answers_example :
    read_frames integers system cache 3 (with_rx integers connection (stream messages))
    ≡ outcome_of integers system cache (answers integers system cache messages connection)
read_frames-answers_example =
    read_frames-answers integers system cache messages 3 connection
      ((omega arith, omega arith), ((omega arith, omega arith), tt)) (omega arith)

abbrev settings : Settings
settings = record { json_reliable = pos 1; track_expire_jaero = pos 1980000 }

abbrev aircraft : Aircraft integers
aircraft = record {
  addr = 0xabcdef;
  addrtype = 0;
  messages = 20;
  nogps_counter = 0;
  seen_adsb_reliable = pos 1000;
  seen = pos 1000;
  pos_reliable_valid = source_adsb;
  position_valid = source_adsb;
  lat_reliable = pos 20;
  lon_reliable = pos 106;
  alt_reliable = pos 5;
  baro_alt_valid = source_adsb;
  baro_alt = pos 35000;
  geom_alt_valid = source_invalid;
  geom_alt = pos 0;
  track_valid = source_adsb;
  track = pos 90;
  gs_valid = source_adsb;
  gs = pos 123;
  baro_rate_valid = source_adsb;
  baro_rate = negsuc 639;
  geom_rate_valid = source_invalid;
  geom_rate = pos 0;
  callsign_valid = source_adsb;
  callsign = 0x48 ∷ 0x56 ∷ 0x4e ∷ 0x31 ∷ 0x20 ∷ 0x20 ∷ 0x20 ∷ 0x20 ∷ [];
  category = 0xa3;
  squawk_valid = source_adsb;
  squawk = 0x1234;
}

count-evict_example :
    count integers
      (λ x. x.have_pos)
      (evict integers (is_stale integers settings (pos 130000)) 1 cache)
    ≡ count integers (λ x. x.have_pos && not (is_stale integers settings (pos 130000) x)) cache
count-evict_example =
    count-evict integers (is_stale integers settings (pos 130000)) (λ x. x.have_pos) 1 cache
      (omega arith)

scan_changes-IsScan_example :
    IsScan integers (scan_changes integers settings (pos 2000) (some aircraft ∷ none ∷ []) cache)
    × (count integers
          (is_stale integers settings (pos 2000))
          (scan_changes integers settings (pos 2000) (some aircraft ∷ none ∷ []) cache).cache
        ≡ 0)
scan_changes-IsScan_example =
    scan_changes-IsScan integers settings (pos 2000) (some aircraft ∷ none ∷ []) cache cache-IsCache

abbrev knowing : Client integers
knowing = record { bbox = none; rx = []; known = 0xabcdef ∷ [] }

abbrev change : Change integers
change = record {
  icao = 0xabcdef;
  position = replicate 20 2;
  ident = replicate 15 6;
  pos_changed = true;
  ident_changed = true;
  have_pos = true;
  lat = pos 20;
  lon = pos 106;
}

send_changes-IsFrame_example :
    IsFrame integers (send_changes integers knowing (change ∷ change ∷ [])).1
    × (length (send_changes integers knowing (change ∷ change ∷ [])).0.known ≤ cache_max)
send_changes-IsFrame_example =
    send_changes-IsFrame integers knowing (change ∷ change ∷ []) (omega arith)
      ((refl, refl), ((refl, refl), tt))

send_snapshot-picture_example :
    ((send_snapshot integers cache client).1 ≡ ws_frame 2 (picture integers none cache))
    × ((icao : ℕ)
        → knows (send_snapshot integers cache client).0.known icao
          ≡ pictured integers none cache icao)
send_snapshot-picture_example = send_snapshot-picture integers cache client cache-IsCache

abbrev entry : Entry integers
entry = new_entry integers 0xabcdef

entry_moved :
    pos_changed integers settings
      (pos 2000)
      entry
      (position_frame integers settings (pos 2000) aircraft)
    ≡ true
unfolding pos_changed position_frame new_entry track_data_valid map_position alt_baro_reliable
    is_jaero hpr_airwire_encode_position valid_icao valid_coordinates
entry_moved = refl

entry_renamed :
    id_changed integers settings
      (pos 2000)
      entry
      (identity_frame integers settings (pos 2000) aircraft)
    ≡ true
unfolding id_changed identity_frame new_entry is_zero hpr_airwire_encode_identity map_identity
    valid_icao
entry_renamed = refl

entry_known : knows knowing.known entry.icao ≡ true
unfolding knows new_entry
entry_known = refl

two_thousand : is_zero (pos 2000) ≡ false
unfolding is_zero
two_thousand = refl

send_changes-identity_lost_example :
    ((change_of integers settings (pos 2000) entry aircraft).ident_changed ≡ true)
    × ((send_changes integers knowing
          (change_of integers settings (pos 2000) entry aircraft ∷ [])).1
        ≡ some (ws_frame 2 (change_of integers settings (pos 2000) entry aircraft).position))
    × (id_changed integers settings
          (pos 3000)
          (seen_entry integers settings (pos 2000) entry aircraft)
          (identity_frame integers settings (pos 3000) aircraft)
        ≡ false)
send_changes-identity_lost_example =
    send_changes-identity_lost integers settings entry aircraft (pos 2000) (pos 3000) knowing
      two_thousand entry_moved entry_renamed refl entry_known
