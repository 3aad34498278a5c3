-- ===== src/Command/Laws.antt =====
-- Proofs about the commands.
pub mod Secrets
pub mod Rehearsals
pub mod Starts
