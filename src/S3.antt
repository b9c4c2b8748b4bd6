-- ===== src/S3.antt =====
-- The S3 client of lore-pg/src/s3.rs.
pub mod Types
pub mod Client
pub mod Range
