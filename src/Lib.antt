-- ===== src/Lib.antt =====
-- Verification of the message core of hpr-readsb, a decoder of Mode S, ADS-B and Mode A/C messages.
--
-- A demodulator or a network feed offers a candidate of 7 or 14 bytes. `scoreModesMessage` ranks it
-- and `decodeModesMessage` decodes it: both compute its parity (crc.c), ask the filter of recently
-- seen addresses (icao_filter.c), repair bit errors by the syndrome tables of crc.c and read
-- altitudes by the tables of mode_ac.c. The decoder in turn adds addresses to the filter. The
-- payload of a Comm-B reply does not say which register it holds; comm_b.c infers it. The Airwire
-- feed turns what the tracker makes of the messages into binary frames and sends them to the
-- clients of a WebSocket.
--
-- The files and the code:
--   Base         helpers: Boolean tests on native numbers, lists as C arrays, bit operations, integers
--   Crc          crc.c: `modesChecksum` is `modes_checksum`, with `crc_table` as the function that
--                `initLookupTables` tabulates; Crc/Table has `struct errorinfo` as `ErrorInfo`,
--                `modesChecksumInit`, `modesChecksumDiagnose` and `modesChecksumFix`
--   IcaoFilter   icao_filter.c: the static variables are the record `Filter`; `icaoFilterAdd`,
--                `icaoFilterTest`, `icaoFilterResize` and `icaoFilterExpire` are functions from it
--                to it; `addrHash` of aircraft.h and `mix_fasthash` of fasthash.h
--   ModeAc       mode_ac.c and the conversions of track.h: `modeACInit` makes an `AcTables`, which
--                `modeAToModeC` and `modeCToModeA` take
--   ModeS        mode_s.c and mode_s.h: Bits has `getbit` and `getbits`, Fields the altitude and
--                identity fields, Message `struct modesMessage` and the settings of `struct _Modes`,
--                Score `scoreModesMessage`, Decode and Decode/Body the two halves of
--                `decodeModesMessage`, ModeA `decodeModeAMessage` of mode_ac.c, Payload
--                `decodeESIdentAndCategory`, `setIMF` and the character set of ais_charset.c,
--                Velocity, Positions, Status and Squitter `decodeExtendedSquitter` and its other
--                decoders
--   CommB        comm_b.c: Parts to Weather have the nine decoders, each as its score and, apart from
--                it, what it stores; Choose has `decodeCommB`
--   Airwire      hpr/airwire/hpr_airwire_bin.c: the two frame encoders
--   AirwireWs    hpr/airwire/hpr_airwire_ws.c: Frame and Reader have `ws_send` and `client_read`, Client
--                the bounding box and `send_snapshot`, Aircraft `map_aircraft` with its tests of track.h
--                and json_out.c, Cache `scan_changes`, Changes `send_changes`, Sha1 and Base64 the
--                digest of the handshake; the static cache is an argument. Standard has the SHA-1 of
--                RFC 3174, apart from the code
--   AirwireJson  hpr/airwire/hpr_airwire.c: the writer and the strings of its rows
-- The other modules below these hold lemmas, the properties and their tests.
--
-- Conventions. An unsigned integer of w bits is a natural number, with `% 2 ^ w` where C wraps; an
-- `int` that can be negative is of the type `ℤ`. A C array is a list: a read out of range gives a
-- default, a write out of range changes nothing, and where the code could do either, or fail an
-- assertion, the function returns `none`, `failed` or `failed_assertion`. A shared structure is
-- passed on explicitly. `decode_return` of mode_s.c, which returns or goes on, is a `Step`.
--
-- Bounds and fuel. A probe of the filter has as much fuel as the table has slots; it visits no slot
-- twice. `icao_filter_add` has fuel for 20 resizes within resizes; the addresses of a resize fit
-- into the new table without another one, so that two levels are used. The loops of crc.c have the
-- bounds of the source. The loop of `client_read` has fuel for one pass more than there are bytes,
-- and each frame takes at least one byte; the copies of `sha1_update` have a pass for each byte, the
-- zeros of `sha1_final` 64 passes, of which at most 63 are used.
--
-- Parameters. `qsort` and `bsearch` of the C library are the record `SortAndSearch`, with the laws
-- `IsSortAndSearch`: a property of all entries holds of all sorted entries, and the search returns
-- the place of an entry with the syndrome that it was given. The arithmetic of doubles is the record
-- `Doubles`, with no law; tests have integers for it. `sscanf` and `send` are the record `System`, and
-- what `recv` returns is a list of chunks. The decoders of the Comm-B and extended squitter payloads
-- are arguments of `decode_modes_message`; CommB and `decode_extended_squitter` model them apart.
--
-- Not modelled: positions (cpr.c), the tracker (track.c), networking and output (net_io.c,
-- json_out.c, api.c), the search for the headers of a WebSocket handshake, the poll loop of the
-- feed, the numbers and flags of its JSON rows, the assertion of `modeACInit` that no value is set
-- twice, the demodulators and the device drivers, files, threads, options and messages on stderr.
pub mod Base
pub mod Crc
pub mod IcaoFilter
pub mod ModeAc
pub mod ModeS
pub mod CommB
pub mod Airwire
pub mod AirwireWs
pub mod AirwireJson
