-- ===== src/File.antt =====
-- file/: block identifiers, pages and the file manager.
pub mod BlockId
pub mod Page
pub mod FileMgr
