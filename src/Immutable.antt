-- ===== src/Immutable.antt =====
-- The immutable store, lore-pg/src/store/pg_immutable_store.rs: its index in PostgreSQL and its
-- payloads in an S3 bucket.
pub mod Types
pub mod Index
pub mod Payload
pub mod Store
pub mod Fragments
pub mod Writes
pub mod Reads
pub mod Copies
pub mod Replaced
pub mod Obliterate
pub mod Erase
pub mod Shared
pub mod Interrupted
pub mod Keeps
pub mod Requests
pub mod Sweep
pub mod Others
pub mod Marks
pub mod Settle
pub mod Descend
pub mod Marking
pub mod Fuel
pub mod Sessions
pub mod Races
pub mod Marked
pub mod Exclusive
pub mod Durable
pub mod Together
