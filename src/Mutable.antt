-- ===== src/Mutable.antt =====
-- The mutable store, lore-pg/src/store/pg_mutable_store.rs.
pub mod Types
pub mod Abstract
pub mod Store
pub mod Keys
pub mod Register
pub mod Swap
pub mod Laws
pub mod Races
pub mod Listing
pub mod Sessions
pub mod Fresh
pub mod Serial
pub mod Mixed
pub mod Effects
pub mod History
pub mod Failures
pub mod Loads
pub mod Faults
