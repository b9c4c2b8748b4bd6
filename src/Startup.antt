-- ===== src/Startup.antt =====
-- The start of the three stores of lore-pg/src/store.
pub mod Types
pub mod Build
pub mod Relations
pub mod Schema
