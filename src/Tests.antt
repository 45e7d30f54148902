-- ===== src/Tests.antt =====
-- The theorems at concrete inputs.
pub mod Git
pub mod Markdown
pub mod Plugins
pub mod Reader
pub mod Revision
pub mod Saving
pub mod Disk
pub mod Storing
