-- ===== src/Bulk.antt =====
-- core/services/bulk_pin_management.py: operations on many pins, with a result for each of them.
pub mod Results
pub mod Operations
pub mod Exclusive
pub mod Privacy
pub mod Accounts
pub mod Gone
pub mod Selection
pub mod Previews
pub mod Histories
pub mod Keeps
pub mod Queries
