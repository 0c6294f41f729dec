-- ===== src/ModeS/ModeA.antt =====
-- mode_ac.c: `decodeModeAMessage`, which turns a Mode A/C reply into a message.
use hpr_readsb.Base.Below.{all_below, all_below-at}
use hpr_readsb.Base.{ℕ, zero, suc, ◌/◌, ◌%◌, ◌^◌, bit_and, bit_or, refl, ◌≡◌, arith, ◌<◌}
use hpr_readsb.Base.{Bool, true, false, not, if◌then◌else◌, ◌==◌, set, ◌&&◌}
use hpr_readsb.Base.Int.{neg_part, sub_ℕ}
use hpr_readsb.ModeAc.{has, mode_a_to_mode_c, squawk_hex_2_dec, mode_ac_init, mode_c_to_mode_a}
use hpr_readsb.ModeAc.Gillham.{gillham, pulse, hundreds_code}
use hpr_readsb.ModeAc.Altitudes.{mode_c_to_mode_a-gillham}
use hpr_readsb.ModeS.Altitude.{gillham-altitude}
use hpr_readsb.ModeS.Fields.{feet, hundreds}
use hpr_readsb.ModeS.Message.{Message, Modes, source_mode_ac}

abbrev pub addr_mode_a : ℕ
addr_mode_a = 12

abbrev pub modes_non_icao_address : ℕ
modes_non_icao_address = 0x1000000

abbrev pub dftype_modeac : ℕ
dftype_modeac = 77

-- `decodeModeAMessage`
pub decode_mode_a_message : Modes → Message → ℕ → Message
decode_mode_a_message modes m mode_a =
    let high = mode_a / 2 ^ 8 % 2 ^ 8 in
    let low = mode_a % 2 ^ 8 in
    let squawk = bit_and mode_a 0x7777 in
    let ident = has mode_a 0x80 in
    let mode_c = mode_a_to_mode_c modes.ac_tables mode_a in
    let named = record m {
      source = source_mode_ac;
      addrtype = addr_mode_a;
      msgtype = dftype_modeac;
      msgbits = 16;
      msg = set (set m.msg 0 high) 1 low;
      verbatim = set (set m.verbatim 0 high) 1 low;
      addr = bit_or (bit_and mode_a 0xff7f) modes_non_icao_address;
      squawk_hex = squawk;
      squawk_dec = squawk_hex_2_dec squawk;
      squawk_valid = true;
      spi = ident;
      spi_valid = true;
      correctedbits = 0;
    } in
    if not ident && not (neg_part mode_c == 9999)
    then record named { baro_alt = hundreds mode_c; baro_alt_unit = feet; baro_alt_valid = true }
    else named

no_ident : ℕ → Bool
no_ident n = not (has (gillham (suc n)) 0x80)

no_idents : all_below no_ident 1280 ≡ true
unfolding all_below no_ident gillham pulse hundreds_code
no_idents = refl

not-true : (b : Bool) → not b ≡ true → b ≡ false
not-true b h = ground arith

gillham-has : (c : ℕ) → 0 < c → c < 1281 → has (gillham c) 0x80 ≡ false
unfolding no_ident
gillham-has zero l h = absurd (omega arith)
gillham-has (suc n) l h =
    not-true (has (gillham (suc n)) 0x80) (all_below-at no_ident 1280 n no_idents (omega arith))

valid_altitude : (c : ℕ) → 0 < c → (neg_part (sub_ℕ c 13) == 9999) ≡ false
valid_altitude c l = ground arith

-- With the tables of modeACInit, decodeModeAMessage of the code that modeCToModeA gives for an
-- altitude from -1200 to 126700 feet, in hundreds of feet, marks the barometric altitude as valid
-- and sets it to that altitude in feet.
pub decode_mode_a_message-mode_c_to_mode_a :
    (modes : Modes) (m : Message) (c : ℕ)
    → modes.ac_tables ≡ mode_ac_init
    → 0 < c
    → c < 1281
    → ((decode_mode_a_message modes m (mode_c_to_mode_a mode_ac_init (sub_ℕ c 13))).baro_alt_valid
        ≡ true)
      × ((decode_mode_a_message modes m (mode_c_to_mode_a mode_ac_init (sub_ℕ c 13))).baro_alt
          ≡ hundreds (sub_ℕ c 13))
unfolding decode_mode_a_message
decode_mode_a_message-mode_c_to_mode_a modes m c made l h =
    let code = mode_c_to_mode_a-gillham c l h in
    let ident = gillham-has c l h in
    let read = gillham-altitude c l h in
    let valid = valid_altitude c l in rw (code, ident, made, read, valid) (refl, refl)
