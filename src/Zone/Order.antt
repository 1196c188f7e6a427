-- ===== src/Zone/Order.antt =====
-- src/zone.rs: in which order a zone handles its calls.
pub mod Kept
pub mod Rounds
