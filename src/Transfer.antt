-- ===== src/Transfer.antt =====
-- The CSV format of crates/hop-server/src/transfer.rs, its rows, and the import.
pub mod Csv
pub mod RoundTrip
pub mod Rows
pub mod Import
pub mod Laws
