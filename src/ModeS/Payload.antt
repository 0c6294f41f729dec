-- ===== src/ModeS/Payload.antt =====
-- mode_s.c: parts of the extended squitter payload, the identification and the mark of an address
-- that is no ICAO address; and the character set of ais_charset.c.
use hpr_readsb.Base.{ℕ, ◌+◌, ◌-◌, ◌*◌, ◌%◌, ◌^◌, bit_or}
use hpr_readsb.Base.{Bool, true, ◌&&◌, ◌||◌, List, [], ◌∷◌, ◌==◌, ltb, leb, if◌then◌else◌}
use hpr_readsb.ModeS.Bits.{getbits}
use hpr_readsb.ModeS.ModeA.{modes_non_icao_address}
use hpr_readsb.ModeS.Message.{Message, addr_adsb_icao, addr_adsb_icao_nt}

-- `ais_charset`
unfoldable pub ais_charset : ℕ → ℕ
ais_charset code = if ltb code 32 then 64 + code else code

abbrev pub addr_adsr_icao : ℕ
addr_adsr_icao = 2

abbrev pub addr_tisb_icao : ℕ
addr_tisb_icao = 3

abbrev pub addr_adsb_other : ℕ
addr_adsb_other = 8

abbrev pub addr_adsr_other : ℕ
addr_adsr_other = 9

abbrev pub addr_tisb_trackfile : ℕ
addr_tisb_trackfile = 10

-- The test of a character of a callsign.
unfoldable pub valid_char : ℕ → Bool
valid_char ch = (leb 65 ch && leb ch 90) || (leb 45 ch && leb ch 57) || ch == 32 || ch == 64

-- The loop over the callsign.
unfoldable pub valid_chars : List ℕ → Bool
valid_chars [] = true
valid_chars (ch ∷ callsign) = valid_char ch && valid_chars callsign

-- `decodeESIdentAndCategory`; the callsign without the 0 at its end.
unfoldable pub decode_es_ident_and_category : Message → Message
decode_es_ident_and_category m =
    let me = m.me in
    let mesub = getbits me 6 8 in
    let callsign =
      ais_charset (getbits me 9 14)
      ∷ ais_charset (getbits me 15 20)
      ∷ ais_charset (getbits me 21 26)
      ∷ ais_charset (getbits me 27 32)
      ∷ ais_charset (getbits me 33 38)
      ∷ ais_charset (getbits me 39 44)
      ∷ ais_charset (getbits me 45 50)
      ∷ ais_charset (getbits me 51 56)
      ∷ [] in
    record m {
      mesub = mesub;
      callsign = callsign;
      callsign_valid = valid_chars callsign;
      category = bit_or ((2 ^ 32 + 0x0e - m.metype) * 16 % 2 ^ 32) mesub;
      category_valid = true;
    }

-- `setIMF`
pub set_imf : Message → Message
set_imf m = record m {
  addr = bit_or m.addr modes_non_icao_address;
  addrtype =
      if m.addrtype == addr_adsb_icao || m.addrtype == addr_adsb_icao_nt
      then addr_adsb_other
      else if m.addrtype == addr_tisb_icao
      then addr_tisb_trackfile
      else if m.addrtype == addr_adsr_icao
      then addr_adsr_other
      else m.addrtype;
}
