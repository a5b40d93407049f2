-- ===== src/Budgets.antt =====
-- src/sudoagent/budgets.py: rate limits over a sliding window.
pub mod Common
pub mod Memory
pub mod Sqlite
