-- ===== src/Tags.antt =====
-- core/services/tag_management.py: the merging of tags.
pub mod Merge
pub mod Walk
pub mod Merged
