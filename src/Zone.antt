-- ===== src/Zone.antt =====
-- src/zone.rs: `Zone`, the owner of one subtree, its calls and the calls that it makes.
pub mod State
pub mod Data
pub mod Calls
pub mod Loop
pub mod Handle
pub mod Persistence
pub mod Order
