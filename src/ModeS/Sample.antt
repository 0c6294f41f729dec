-- ===== src/ModeS/Sample.antt =====
-- A message before it is decoded, for tests.
use hpr_readsb.Base.{ℕ, List, [], false}
use hpr_readsb.Base.Int.{pos}
use hpr_readsb.ModeS.Fields.{feet}
use hpr_readsb.ModeS.Message.{Message, source_invalid, ag_invalid}

abbrev pub received : List ℕ → Message
received msg = record {
  msg = msg;
  verbatim = [];
  timestamp = 0;
  msgtype = 0;
  msgbits = 0;
  correctedbits = 0;
  decode_result = pos 0;
  crc = 0;
  addr = 0;
  maybe_addr = 0;
  addrtype = 0;
  remote = false;
  garbage = false;
  source = source_invalid;
  iid = 0;
  aa = 0;
  ac = 0;
  ca = 0;
  cc_field = 0;
  cf = 0;
  dr = 0;
  fs = 0;
  id_field = 0;
  ke = 0;
  nd = 0;
  ri = 0;
  sl = 0;
  um = 0;
  vs = 0;
  metype = 0;
  mesub = 0;
  mb = [];
  md = [];
  me = [];
  mv = [];
  baro_alt_valid = false;
  squawk_valid = false;
  callsign_valid = false;
  category_valid = false;
  spi_valid = false;
  spi = false;
  alert_valid = false;
  alert = false;
  alt_q_bit = 0;
  acas_ra_valid = false;
  baro_alt = pos 0;
  baro_alt_unit = feet;
  callsign = [];
  squawk_hex = 0;
  squawk_dec = 0;
  category = 0;
  airground = ag_invalid;
}
