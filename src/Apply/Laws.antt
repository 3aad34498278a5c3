-- ===== src/Apply/Laws.antt =====
-- Proofs about the apply, by what they are about.
pub mod Revision
pub mod Summary
pub mod Deletes
pub mod Own
pub mod Planned
pub mod Built
