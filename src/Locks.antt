-- ===== src/Locks.antt =====
-- The lock store, lore-pg/src/store/pg_lock_store.rs.
pub mod Types
pub mod Canon
pub mod Store
pub mod Holding
pub mod Grants
pub mod LockOne
pub mod LockAll
pub mod Acquire
pub mod Decide
pub mod Unlock
pub mod UnlockOne
pub mod UnlockOwned
pub mod Release
pub mod Sequence
pub mod Sessions
pub mod Orderly
pub mod Waits
pub mod Deadlock
pub mod Rows
pub mod Query
pub mod History
pub mod Exclusion
