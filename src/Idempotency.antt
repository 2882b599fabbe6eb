-- ===== src/Idempotency.antt =====
-- core/services/idempotency.py: leases on the items of a batch import.
pub mod Rows
pub mod Store
pub mod Claim
pub mod Owner
pub mod Steps
pub mod Changes
pub mod Leases
pub mod Invariant
pub mod Unique
pub mod Claims
pub mod Interference
pub mod Settled
pub mod Once
