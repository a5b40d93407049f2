-- ===== src/Ledger.antt =====
-- The ledger package: canonical JSON, the chain of entries its verification and the
-- two files that hold it.
pub mod Numerals
pub mod Jcs
pub mod Chain
pub mod Jsonl
pub mod Sqlite
mod Examples
