-- ===== src/Target/Laws.antt =====
-- Proofs about the client side of a managed session.
pub mod Utf8
pub mod Logins
