-- ===== src/Api/Laws.antt =====
-- Proofs about the management interface: who is let in, what a request may change, the secrets, and
-- the applies.
pub mod Auth
pub mod Managed
pub mod Sealed
pub mod Secrets
pub mod Created
pub mod Kept
pub mod Applies
pub mod Sessions
