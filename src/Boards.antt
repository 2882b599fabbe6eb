-- ===== src/Boards.antt =====
-- core/services/pin_membership.py and core/services/board_cover.py: which pins a board holds, and
-- which of them is its cover.
pub mod Members
pub mod Membership
pub mod Cover
pub mod Invariant
pub mod Covers
pub mod Chosen
pub mod Effects
pub mod Keys
pub mod Deletions
pub mod Keyed
pub mod Moves
