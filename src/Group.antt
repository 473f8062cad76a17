-- ===== src/Group.antt =====
-- Consumer groups.
pub mod Assignor
pub mod Coordinator
pub mod OffsetStore
