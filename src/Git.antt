-- ===== src/Git.antt =====
-- Comparing a note with the note as last committed, block by block.
pub mod Pairs
pub mod Table
pub mod Anchors
pub mod Align
pub mod Similar
pub mod Diff
