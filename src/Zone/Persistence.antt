-- ===== src/Zone/Persistence.antt =====
-- A zone and its store: every change is followed by a write, and no handler panics.
pub mod Rules
pub mod Marked
pub mod Handlers
pub mod Owed
pub mod Store
pub mod Life
