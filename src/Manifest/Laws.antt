-- ===== src/Manifest/Laws.antt =====
-- The proofs about manifest.rs.
pub mod Assets
pub mod Closed
pub mod Scope
