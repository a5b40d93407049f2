-- ===== src/Engine.antt =====
-- The execution engine: async_engine.py, with the classes of types.py, policies.py and errors.py.
pub mod Common
pub mod Services
pub mod Build
pub mod Approval
pub mod Entries
pub mod Logging
pub mod Reasons
pub mod Execute
pub mod Traces
pub mod Bounds
pub mod Policies
pub mod Adapters
pub mod Sync
mod Examples
