-- ===== src/ModeS/Message.antt =====
-- `struct modesMessage` of readsb.h, as far as the checks and the common fields of a message go,
-- and the settings of `struct _Modes` that the decoder reads.
use hpr_readsb.Base.{ℕ, Bool, List}
use hpr_readsb.Base.Int.{ℤ}
use hpr_readsb.Crc.Table.{Tables}
use hpr_readsb.ModeAc.{AcTables}
use hpr_readsb.ModeS.Fields.{AltitudeUnit}

-- `datasource_t`
pub data Source : Type 0 where
  source_invalid source_indirect source_mode_ac source_sbs source_mlat source_mode_s : Source
  source_jaero source_mode_s_checked source_tisb source_adsr source_nt source_adsb : Source
  source_prio : Source

-- `airground_t`
pub data AirGround : Type 0 where
  ag_invalid ag_ground ag_airborne ag_uncertain : AirGround

-- The values of `addrtype_t` that the decoder sets or compares with.
abbrev pub addr_adsb_icao : ℕ
addr_adsb_icao = 0

abbrev pub addr_adsb_icao_nt : ℕ
addr_adsb_icao_nt = 1

abbrev pub addr_mlat : ℕ
addr_mlat = 5

abbrev pub addr_other : ℕ
addr_other = 6

abbrev pub addr_mode_s : ℕ
addr_mode_s = 7

abbrev pub addr_unknown : ℕ
addr_unknown = 13

abbrev pub hex_unknown : ℕ
hex_unknown = 0xdeadbeef

abbrev pub magic_mlat_timestamp : ℕ
magic_mlat_timestamp = 0xff004d4c4154

-- `struct modesMessage`, from `msg` to `airground`.
pub record Message : Type 0 where
  pub msg : List ℕ
  pub verbatim : List ℕ
  pub timestamp : ℕ
  pub msgtype : ℕ
  pub msgbits : ℕ
  pub correctedbits : ℕ
  pub decode_result : ℤ
  pub crc : ℕ
  pub addr : ℕ
  pub maybe_addr : ℕ
  pub addrtype : ℕ
  pub remote : Bool
  pub garbage : Bool
  pub source : Source
  pub iid : ℕ
  pub aa : ℕ
  pub ac : ℕ
  pub ca : ℕ
  pub cc_field : ℕ
  pub cf : ℕ
  pub dr : ℕ
  pub fs : ℕ
  pub id_field : ℕ
  pub ke : ℕ
  pub nd : ℕ
  pub ri : ℕ
  pub sl : ℕ
  pub um : ℕ
  pub vs : ℕ
  pub metype : ℕ
  pub mesub : ℕ
  pub mb : List ℕ
  pub md : List ℕ
  pub me : List ℕ
  pub mv : List ℕ
  pub baro_alt_valid : Bool
  pub squawk_valid : Bool
  pub callsign_valid : Bool
  pub category_valid : Bool
  pub spi_valid : Bool
  pub spi : Bool
  pub alert_valid : Bool
  pub alert : Bool
  pub alt_q_bit : ℕ
  pub acas_ra_valid : Bool
  pub baro_alt : ℤ
  pub baro_alt_unit : AltitudeUnit
  pub callsign : List ℕ
  pub squawk_hex : ℕ
  pub squawk_dec : ℕ
  pub category : ℕ
  pub airground : AirGround

-- The members of `Modes` that the decoder reads, with the tables of crc.c and mode_ac.c.
pub record Modes : Type 0 where
  pub nfix_crc : ℕ
  pub fix_df : Bool
  pub decode_all : Bool
  pub net_verbatim : Bool
  pub net_ingest : Bool
  pub garbage_ports : Bool
  pub tables : Tables
  pub ac_tables : AcTables
