-- ===== src/CommB.antt =====
-- comm_b.c: which of nine registers a Comm-B reply holds. Each decoder scores the payload; the one
-- with the highest score stores what it read. A decoder with `store` unset only scores, so that
-- here it returns its score and what it would store.
pub mod Parts
pub mod Capabilities
pub mod Intent
pub mod Turn
pub mod Heading
pub mod Weather
pub mod Choose
pub mod Bounds
pub mod Choice
pub mod Empty
mod Tests
