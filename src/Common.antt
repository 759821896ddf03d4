-- ===== src/Common.antt =====
-- Package internal/common.
pub mod FileSystem
