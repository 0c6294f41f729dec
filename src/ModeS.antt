-- ===== src/ModeS.antt =====
-- mode_s.c and the inline functions of mode_s.h: the fields of a message, the score of a candidate
-- and the decoding of a message. The decoders of the Comm-B and the extended squitter payload are
-- arguments of the decoder.
pub mod Bits
pub mod Fields
pub mod Message
pub mod Score
pub mod Decode
pub mod Accept
pub mod Altitude
pub mod Verdict
pub mod ModeA
pub mod Payload
pub mod Velocity
pub mod Rates
pub mod Positions
pub mod Status
pub mod Squitter
pub mod Kept
pub mod Sample
mod Tests
mod SquitterTests
