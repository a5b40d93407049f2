-- ===== src/Approvals.antt =====
-- src/sudoagent/approvals/common.py, approvals_store.py, approvals/async_store.py and
-- notifiers/async_approvers.py.
pub mod Common
pub mod Store
pub mod AsyncStore
pub mod Polling
