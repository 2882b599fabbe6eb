-- ===== src/Tests.antt =====
-- The theorems at concrete inputs.
pub mod Data
pub mod ExportData
mod Leases
mod Batches
mod Boards
mod Bulk
mod Tags
mod Order
mod Exports
