-- ===== src/Examples.antt =====
-- Concrete tables, orders, identifiers and buckets, and each property applied at concrete input.
mod Rows
mod Orders
mod LockRuns
mod ValueRuns
mod Bucket
mod FragmentRuns
mod ObliterateRuns
mod SessionRuns
mod StartRuns
mod ObjectRuns
mod Bits
mod HistoryRuns
mod CallRuns
mod StoreRuns
mod EraseRuns
