-- ===== src/Revision.antt =====
-- src/shared/markdown/v3/revision-patch.ts: saving a note without sending it whole.
pub mod BlockId
pub mod Transaction
pub mod Patch
pub mod Build
