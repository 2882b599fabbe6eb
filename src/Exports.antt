-- ===== src/Exports.antt =====
-- The export of pins as an archive: jobs, the worker's leases, targets (exports/).
pub mod Contracts
pub mod Tables
pub mod Constraints
pub mod Queries
pub mod Failures
pub mod Worker
pub mod Recovery
pub mod Requeue
pub mod Handoff
pub mod Maintenance
pub mod Attempts
pub mod Chunks
pub mod Permissions
pub mod Publication
pub mod Completion
pub mod Snapshots
pub mod Targets
pub mod Sizes
pub mod Removal
pub mod Creation
pub mod Downloads
pub mod Invariant
pub mod Saves
pub mod Phases
pub mod Leased
pub mod Failed
pub mod Claimed
pub mod Rounds
pub mod Packed
pub mod Published
pub mod Returned
pub mod Requeued
pub mod Attempted
pub mod Concluded
pub mod Decided
pub mod Counted
pub mod Recaptured
pub mod Created
pub mod Slotted
pub mod Removed
pub mod Steps
pub mod Histories
pub mod Fifo
pub mod Claiming
pub mod Chunked
pub mod Revoked
pub mod Retry
pub mod Decisions
pub mod Publishing
pub mod Authorized
pub mod Expected
pub mod Single
pub mod Overtaken
