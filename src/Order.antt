-- ===== src/Order.antt =====
-- core/services/board_ordering.py: the order of a user's boards.
pub mod Service
pub mod Positions
pub mod Saved
pub mod Placed
pub mod Kept
