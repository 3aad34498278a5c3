-- ===== src/Runtime/Laws.antt =====
-- The proofs about runtime.rs.
pub mod Queries
pub mod Owners
pub mod Revision
pub mod Access
pub mod Grants
pub mod Assignments
pub mod Finished
