-- ===== src/AirwireWs.antt =====
-- hpr/airwire/hpr_airwire_ws.c: the WebSocket feed. A client sends masked frames, of which a text
-- frame sets its bounding box; the feed sends it binary frames with the position and identity
-- records of the aircraft that changed.
pub mod Frame
pub mod Client
pub mod Reader
pub mod Wire
pub mod Stream
pub mod Ending
pub mod Replies
pub mod Aircraft
pub mod Cache
pub mod Eviction
pub mod Bounds
pub mod Invariant
pub mod Changes
pub mod Payload
pub mod Sending
pub mod Omission
pub mod Sha1
pub mod Digest
pub mod Padding
pub mod Standard
pub mod Rounds
pub mod Reference
pub mod Base64
mod DigestTests
mod Tests
