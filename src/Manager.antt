-- ===== src/Manager.antt =====
-- src/manager.rs: the zone registry, the loading limit and the eviction of idle zones. A zone's
-- handle is named by its path, by which the source compares handles.
pub mod Registry
pub mod Calls
pub mod Handle
pub mod Eviction
