-- ===== src/Batch.antt =====
-- core/services/batch_import.py: the import of the items of one batch, with a result for each.
pub mod Errors
pub mod Codes
pub mod Service
pub mod Process
pub mod Reports
pub mod Complete
pub mod Admission
pub mod Leases
pub mod Repeats
